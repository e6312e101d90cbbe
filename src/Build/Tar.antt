-- ===== src/Build/Tar.antt =====
-- pkg/build/tar.go: the archive of an image. `StreamLayerOpener` starts a goroutine, the writer, which
-- shares a channel and a pipe with the function that opens the layer; their steps may interleave. What
-- writes into the pipe waits until its reader was returned: a write of io.Pipe blocks until it is read.
-- From then on the reader is taken to be read to its end or closed, so that the writes return.
pub mod Archive
pub mod Streams
pub mod Progress
use containerdisks.Base.{
  ℕ, ◌≡◌, Bool, true, false, Option, none, some, List, [], ◌∷◌, ◌++◌, Text, codes,
}
use containerdisks.Go.Result.{Error, wrapped, Result}
use containerdisks.Effects.{Eff, raise, call_ok, on_error, ◌>>◌}

pub data Typeflag : Type 0 where
  type_dir type_reg : Typeflag

-- tar.Header, as far as it is filled in.
pub record Header (Time : Type 0) : Type 0 where
  pub typeflag : Typeflag
  pub name : Text
  pub size : ℕ
  pub mode : ℕ
  pub uid : ℕ
  pub gid : ℕ
  pub uname : Text
  pub gname : Text
  pub mod_time : Time

-- os.FileInfo of the image.
pub record FileInfo (Time : Type 0) : Type 0 where
  pub size : ℕ
  pub mod_time : Time

-- A tar.Writer, and io.Copy from the file into it: what it has written, also where it fails midway.
pub record TarWriter (Time : Type 0) : Type 1 where
  pub World : Type 0
  pub write_header : Header Time → World → Result (Unit {0}) × World
  pub copy : World → Text × Result (Unit {0}) × World

-- What stands in the archive; a header counts once it is written.
pub data Part (Time : Type 0) : Type 0 where
  headed : Header Time → Part Time
  content : Text → Part Time

module _ {Time : Type 0} (W : TarWriter Time) where
  open W use {World}

  abbrev pub M : Type 0 → Type 0
  M A = Eff World (Part Time) A

  abbrev pub dir_header : Time → Header Time
  dir_header mod_time = record {
    typeflag = type_dir;
    name = codes "disk/";
    size = 0;
    mode = 365;
    uid = 107;
    gid = 107;
    uname = codes "qemu";
    gname = codes "qemu";
    mod_time = mod_time;
  }

  abbrev pub file_header : FileInfo Time → Header Time
  file_header stat = record {
    typeflag = type_reg;
    name = codes "disk/disk.img";
    size = stat.size;
    mode = 292;
    uid = 107;
    gid = 107;
    uname = codes "qemu";
    gname = codes "qemu";
    mod_time = stat.mod_time;
  }

  -- What was copied stands in the archive however the copy ends.
  unfoldable pub copy_content : M (Unit {0})
  copy_content w = let (text, r, w') = W.copy w in (r, content text ∷ [], w')

  -- The directory, the file's header, and the file. 0o555 and 0o444 are the modes.
  unfoldable pub add_file_to_tar_writer : FileInfo Time → Time → M (Unit {0})
  add_file_to_tar_writer stat mod_time = do
    on_error (λ e. raise (wrapped (codes "error writing disks directory tar header: ") e))
        (call_ok (λ (u : Unit {0}). headed (dir_header mod_time))
          (W.write_header (dir_header mod_time)))
    on_error (λ e. raise (wrapped (codes "error writing image file tar header: ") e))
        (call_ok (λ (u : Unit {0}). headed (file_header stat)) (W.write_header (file_header stat)))
    on_error (λ e. raise (wrapped (codes "error writingfile into tarball: ") e)) copy_content

-- Where the writer stands: it opens the file, asks for its size, waits with an error until the channel
-- takes it, adds the file, closes the archive, leaves with its deferred calls, or has ended.
pub data Writer : Type 0 where
  opening stating adding footing leaving gone : Writer
  failing : Error → Writer

-- The function waits for the channel, or has returned an error or the reader of the pipe.
pub data Opener : Type 0 where
  waiting : Opener
  returned : Option Error → Opener

-- `closings` are the calls that close the pipe, each with the error that the reader would see: the
-- first one counts.
pub record Stream : Type 0 where
  pub opener : Opener
  pub writer : Writer
  pub channel_closed : Bool
  pub file_open : Bool
  pub closings : List (Option Error)

abbrev pub started : Stream
started = record {
  opener = waiting;
  writer = opening;
  channel_closed = false;
  file_open = false;
  closings = [];
}

abbrev pub opening_error : Error → Error
opening_error e = wrapped (codes "error opening file: ") e

abbrev pub stat_error : Error → Error
stat_error e = wrapped (codes "error getting file information with stat: ") e

abbrev pub adding_error : Text → Error → Error
adding_error image_path e =
    wrapped (codes "error adding file '" ++ (image_path ++ codes "', to tarball: ")) e

abbrev pub footer_error : Error → Error
footer_error e = wrapped (codes "error writing footer of tarball: ") e

module _ (image_path : Text) where
  -- The writer passes `adding` and `footing` only with a reader at the pipe.
  pub data Step (s t : Stream) : Type 0 where
    open_ok : s.writer ≡ opening → t ≡ record s { writer = stating; file_open = true } → Step s t
    open_failed :
        (e : Error)
        → s.writer ≡ opening
        → t ≡ record s { writer = failing (opening_error e) }
        → Step s t
    stat_ok :
        s.writer ≡ stating → t ≡ record s { writer = adding; channel_closed = true } → Step s t
    stat_failed :
        (e : Error)
        → s.writer ≡ stating
        → t ≡ record s { writer = failing (stat_error e) }
        → Step s t
    hand_over :
        (e : Error)
        → s.writer ≡ failing e
        → s.opener ≡ waiting
        → t ≡ record s { writer = leaving; opener = returned (some e) }
        → Step s t
    go_on :
        s.channel_closed ≡ true
        → s.opener ≡ waiting
        → t ≡ record s { opener = returned none }
        → Step s t
    add_ok :
        s.writer ≡ adding → s.opener ≡ returned none → t ≡ record s { writer = footing } → Step s t
    add_failed :
        (e : Error)
        → s.writer ≡ adding
        → s.opener ≡ returned none
        → t ≡ record s {
          writer = footing;
          closings = s.closings ++ some (adding_error image_path e) ∷ [];
        }
        → Step s t
    footer_ok :
        s.writer ≡ footing → s.opener ≡ returned none → t ≡ record s { writer = leaving } → Step s t
    footer_failed :
        (e : Error)
        → s.writer ≡ footing
        → s.opener ≡ returned none
        → t ≡ record s { writer = leaving; closings = s.closings ++ some (footer_error e) ∷ [] }
        → Step s t
    leave :
        s.writer ≡ leaving
        → t ≡ record s { writer = gone; file_open = false; closings = s.closings ++ none ∷ [] }
        → Step s t

  pub data Steps (s : Stream) : Stream → Type 0 where
    stay : Steps s s
    more : {t u : Stream} → Steps s t → Step t u → Steps s u

-- ===== src/Build/Tar/Archive.antt =====
-- What stands in the archive of an image.
use containerdisks.Base.{
  codes, ◌+◌, ◌*◌, ◌≡◌, refl, sym, subst, append-nil, inl, inr, List, [], ◌∷◌, ◌++◌, Text,
}
use containerdisks.Go.Result.{Error, Result, ok, err, panic}
use containerdisks.Effects.{raise, call_ok, on_error, ◌>>=◌}
use containerdisks.Effects.Leaves.{Leaves, IsStop, Called, Leaves-seq, Leaves-imp, Leaves-prefixed}
use containerdisks.Build.Tar.{
  TarWriter, Header, type_dir, type_reg, FileInfo, Part, copy_content, headed, content, dir_header,
  file_header, add_file_to_tar_writer,
}

module _ {Time : Type 0} (W : TarWriter Time) (stat : FileInfo Time) (mod_time : Time) where
  open W use {World}

  -- The header of the directory, readable by all and with no size.
  pub record IsDirectory (h : Header Time) : Type 0 where
    pub kind : h.typeflag ≡ type_dir
    pub name : h.name ≡ codes "disk/"
    pub empty : h.size ≡ 0
    pub mode : h.mode ≡ 5 * 64 + 5 * 8 + 5
    pub owner : (h.uid ≡ 107) × (h.gid ≡ 107)
    pub time : h.mod_time ≡ mod_time

  -- The header of the image, with the size and the time of its file.
  pub record IsImage (h : Header Time) : Type 0 where
    pub kind : h.typeflag ≡ type_reg
    pub name : h.name ≡ codes "disk/disk.img"
    pub size : h.size ≡ stat.size
    pub mode : h.mode ≡ 4 * 64 + 4 * 8 + 4
    pub owner : (h.uid ≡ 107) × (h.gid ≡ 107)
    pub time : h.mod_time ≡ stat.mod_time

  -- The parts written so far are the first ones of the archive, and all of them on success. Where
  -- the content is among them, it is what the copy wrote, and the result is that of the copy.
  pub record IsArchive (r : Result (Unit {0})) (es : List (Part Time)) : Type 0 where
    pub directory : Header Time
    pub is_directory : IsDirectory directory
    pub image : Header Time
    pub is_image : IsImage image
    pub text : Text
    pub missing : List (Part Time)
    pub whole : es ++ missing ≡ headed directory ∷ headed image ∷ content text ∷ []
    pub complete : r ≡ ok tt → missing ≡ []
    pub copied :
        missing ≡ []
        → (w : World) × ((W.copy w).0 ≡ text)
          × ((r ≡ ok tt → (W.copy w).1 ≡ ok tt) × ((W.copy w).1 ≡ ok tt → r ≡ ok tt))

  dir-IsDirectory : IsDirectory (dir_header W mod_time)
  dir-IsDirectory = record {
    kind = refl;
    name = refl;
    empty = refl;
    mode = refl;
    owner = (refl, refl);
    time = refl;
  }

  file-IsImage : IsImage (file_header W stat)
  file-IsImage = record {
    kind = refl;
    name = refl;
    size = refl;
    mode = refl;
    owner = (refl, refl);
    time = refl;
  }

  -- Parts that are written, and a call that fails behind them.
  cut :
      (s : Result (Unit {0})) (es : List (Part Time)) (part : Part Time)
      (missing : List (Part Time)) (text : Text)
      → IsStop s
      → es ++ (part ∷ missing)
        ≡ headed (dir_header W mod_time) ∷ headed (file_header W stat) ∷ content text ∷ []
      → IsArchive s es
  cut s es part missing text h whole = record {
    directory = dir_header W mod_time;
    is_directory = dir-IsDirectory;
    image = file_header W stat;
    is_image = file-IsImage;
    text = text;
    missing = part ∷ missing;
    whole = whole;
    complete = λ k. absurd (stopped s h k);
    copied = λ k. absurd (cc k);
  }
    where
      stopped : (s : Result (Unit {0})) → IsStop s → s ≡ ok tt → ⊥
      stopped (ok u) h k = h
      stopped (err e) h k = cc k
      stopped (panic m) h k = cc k

  -- The parts of a call that failed, or that succeeded.
  stopped_parts :
      {A : Type 0} (event : A → Part Time) (f : World → Result A × World) (r : Result A)
      (es : List (Part Time))
      → IsStop r
      → Called event f r es
      → es ≡ []
  stopped_parts event f (ok a) es h k = absurd h
  stopped_parts event f (err e) es h (inl k) = k.1
  stopped_parts event f (err e) es h (inr (a, w, k, _, _)) = absurd (cc k)
  stopped_parts event f (panic m) es h (inl k) = k.1
  stopped_parts event f (panic m) es h (inr (a, w, k, _, _)) = absurd (cc k)

  ok_parts :
      {A : Type 0} (event : A → Part Time) (f : World → Result A × World) (a : A)
      (es : List (Part Time))
      → Called event f (ok a) es
      → (es ≡ event a ∷ []) × ((w : World) × ((f w).0 ≡ ok a))
  ok_parts event f a es (inl k) = absurd k.0
  ok_parts event f a es (inr (b, w, k, e, g)) = let same : a ≡ b = cc k in (cc (e, same), (w, cc g))

  -- A part of the archive behind those that are written, and the rest behind it.
  part-IsArchive :
      {A : Type 0} (event : A → Part Time) (f : World → Result A × World) (g : Error → Error)
      (next : A → World → Result (Unit {0}) × List (Part Time) × World) (before : List (Part Time))
      (part : Part Time) (missing : List (Part Time))
      → before ++ (part ∷ missing)
        ≡ headed (dir_header W mod_time) ∷ headed (file_header W stat) ∷ content [] ∷ []
      → ((a : A) (w : World)
          → (f w).0 ≡ ok a
          → Leaves (λ r es. IsArchive r (before ++ (event a ∷ es))) (next a))
      → Leaves
          (λ r es. IsArchive r (before ++ es))
          (on_error (λ e. raise (g e)) (call_ok event f) >>= next)
  part-IsArchive event f g next before part missing whole rest =
      Leaves-seq _ next (Leaves-prefixed event f g)
        (λ e es k. failed (err e) es tt (stopped_parts event f (err e) es tt k))
        (λ p es k. failed (panic p) es tt (stopped_parts event f (panic p) es tt k))
        (λ a es k.
          let (one, (w, gave)) = ok_parts event f a es k in
          Leaves-imp (next a) (λ r fs t. subst (λ l. IsArchive r (before ++ (l ++ fs))) (sym one) t)
            (rest a w gave))
    where
      failed :
          (s : Result (Unit {0})) (es : List (Part Time))
          → IsStop s
          → es ≡ []
          → IsArchive s (before ++ es)
      failed s es h e =
          subst (λ l. IsArchive s (before ++ l)) (sym e)
            (subst (IsArchive s) (sym (append-nil before)) (cut s before part missing [] h whole))

  -- The content, behind the headers.
  content-IsArchive :
      (g : Error → Error)
      → Leaves
          (λ r es.
            IsArchive r (headed (dir_header W mod_time) ∷ (headed (file_header W stat) ∷ es)))
          (on_error (λ e. raise (g e)) (copy_content W))
  unfolding copy_content on_error raise
  content-IsArchive g = record { at = λ w. behind w (W.copy w).1 refl }
    where
      archive :
          (w : World) (r : Result (Unit {0}))
          → (r ≡ ok tt → (W.copy w).1 ≡ ok tt) × ((W.copy w).1 ≡ ok tt → r ≡ ok tt)
          → IsArchive r (
              headed (dir_header W mod_time)
              ∷ (headed (file_header W stat) ∷ (content (W.copy w).0 ∷ [])))
      archive w r same = record {
        directory = dir_header W mod_time;
        is_directory = dir-IsDirectory;
        image = file_header W stat;
        is_image = file-IsImage;
        text = (W.copy w).0;
        missing = [];
        whole = refl;
        complete = λ k. refl;
        copied = λ k. (w, refl, same);
      }

      behind :
          (w : World) (r : Result (Unit {0}))
          → (W.copy w).1 ≡ r
          → IsArchive ((on_error (λ e. raise (g e)) (copy_content W)) w).0 (
              headed (dir_header W mod_time)
              ∷ (headed (file_header W stat)
                  ∷ ((on_error (λ e. raise (g e)) (copy_content W)) w).1))
      behind w (ok u) q = rw q (archive w (ok u) (λ k. q, λ k. refl))
      behind w (err e) q =
          rw q (archive w (err (g e)) (λ k. absurd (cc k), λ k. absurd (cc (q, k))))
      behind w (panic m) q =
          rw q (archive w (panic m) (λ k. absurd (cc k), λ k. absurd (cc (q, k))))

  -- However the calls of the archive end, what was written are the first of: the header of the
  -- directory disk/, the header of disk/disk.img with the size and the time of the image's file, and
  -- what the copy of the file wrote, which may be a part of it if the copy fails. If adding the file
  -- succeeds, they are all written; if they are, it succeeds exactly if the copy did.
  pub add_file_to_tar_writer-IsArchive :
      (w : World)
      → IsArchive
          ((add_file_to_tar_writer W stat mod_time) w).0
          ((add_file_to_tar_writer W stat mod_time) w).1
  unfolding add_file_to_tar_writer
  add_file_to_tar_writer-IsArchive w =
      (part-IsArchive _ _ _ _ [] _ _ refl λ u v k.
          part-IsArchive _ _ _ _ (headed (dir_header W mod_time) ∷ []) _ _ refl
            λ u' v' k'. content-IsArchive _).at
        w

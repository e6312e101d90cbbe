-- ===== src/Hashsum/Line.antt =====
-- A line in either format is read as the name and the checksum that it was written from.
use containerdisks.Base.{
  ℕ, ◌≡◌, ◌≢◌, ◌∙◌, refl, true, false, some, List, [], ◌∷◌, ◌++◌, append_assoc, arith, Text, codes,
  All, All-imp, ap,
}
use containerdisks.Go.Strings.{trim_space, is_space}
use containerdisks.Go.Bufio.{drop_cr}
use containerdisks.Go.Bufio.Lines.{snoc_view, drop_cr-snoc, trim_space_self}
use containerdisks.Go.Regexp.{Item, one, plus, end, Match, match_here, take_one, take_run}
use containerdisks.Go.Regexp.Greedy.{Stops, match_here-plus, match_here-plus-end, match_here-one}
use containerdisks.Hashsum.{
  ChecksumFormat, bsd, gnu, is_hex_like, is_blank, is_not_paren, is_word, is_char, bsd_line_rex,
  gnu_line_rex, drop_star, named_groups, line_rex, parse_line,
}

-- The line that a checksum tool writes for a file.
unfoldable pub render_line : ChecksumFormat → Text → Text → Text
render_line gnu name checksum = checksum ++ b' ' ∷ b' ' ∷ name
render_line bsd name checksum = codes "SHA256 (" ++ (name ++ (codes ") = " ++ checksum))

-- What a format asks of a name: no blank in it and no asterisk before it, or no closing bracket.
abbrev pub NameFits : ChecksumFormat → Text → Type 0
NameFits gnu name = All (λ c. is_space c ≡ false) name × (drop_star name ≡ name)
NameFits bsd name = All (λ c. is_not_paren c ≡ true) name

pub record IsEntry (format : ChecksumFormat) (name checksum : Text) : Type 0 where
  pub name_given : name ≢ []
  pub checksum_given : checksum ≢ []
  pub name_fits : NameFits format name
  pub checksum_fits : All (λ c. is_hex_like c ≡ true) checksum

word_of_not-space : (c : ℕ) → is_space c ≡ false → is_word c ≡ true
unfolding is_space
word_of_not-space c h = ground arith

char :
    (c : ℕ) (items : List Item) (s : Text) {m : Match}
    → match_here items s ≡ some m
    → match_here (one (is_char c) ∷ items) (c ∷ s) ≡ take_one c (some m)
char c items s {m} e = match_here-one (is_char c) items c s m (ground arith) e

blank :
    (c : ℕ) (items : List Item) (s : Text) {m : Match}
    → is_blank c ≡ false
    → match_here items (c ∷ s) ≡ some m
    → match_here (plus false is_blank ∷ items) (b' ' ∷ c ∷ s) ≡ take_run false (b' ' ∷ []) (some m)
blank c items s {m} stop e =
    match_here-plus false is_blank items (b' ' ∷ []) (c ∷ s) m (cc) (refl, tt) stop e

module _ (name checksum : Text) where
  match-gnu :
      IsEntry gnu name checksum
      → match_here gnu_line_rex (checksum ++ b' ' ∷ b' ' ∷ name)
        ≡ some (record { whole = checksum ++ b' ' ∷ b' ' ∷ name; groups = checksum ∷ name ∷ [] })
  unfolding take_run
  match-gnu h =
      match_here-plus true is_hex_like _ checksum (b' ' ∷ b' ' ∷ name) _ h.checksum_given
        h.checksum_fits refl
        (match_here-plus false is_blank _ (b' ' ∷ b' ' ∷ []) name _ (cc) (refl, (refl, tt))
          (word_stops name words) last)
    where
      words : All (λ c. is_word c ≡ true) name
      words = All-imp _ _ word_of_not-space name h.name_fits.0

      word_stops : (s : Text) → All (λ c. is_word c ≡ true) s → Stops is_blank s
      word_stops [] w = tt
      word_stops (c ∷ s) w = ground arith

      last :
          match_here (plus true is_word ∷ end ∷ []) name
          ≡ some (record { whole = name; groups = name ∷ [] })
      last = match_here-plus-end is_word name h.name_given words

  match-bsd :
      IsEntry bsd name checksum
      → match_here bsd_line_rex (codes "SHA256 (" ++ (name ++ (codes ") = " ++ checksum)))
        ≡ some (record {
          whole = codes "SHA256 (" ++ (name ++ (codes ") = " ++ checksum));
          groups = name ∷ checksum ∷ [];
        })
  unfolding take_run take_one
  match-bsd h = char b'S' _ _ (
      char b'H' _ _ (
        char b'A' _ _ (
          char b'2' _ _ (
            char b'5' _ _ (
              char b'6' _ _ (
                blank b'(' _ _ refl (
                  char b'(' _ _ (
                    match_here-plus true is_not_paren _ name _ _ h.name_given h.name_fits refl
                      (char b')' _ _ (blank b'=' _ _ refl (char b'=' _ _ spaced)))))))))))
    where
      hex_stops : (s : Text) → All (λ c. is_hex_like c ≡ true) s → Stops is_blank s
      hex_stops [] w = tt
      hex_stops (c ∷ s) w = ground arith

      spaced :
          match_here (plus false is_blank ∷ plus true is_hex_like ∷ end ∷ []) (b' ' ∷ checksum)
          ≡ some (record { whole = b' ' ∷ checksum; groups = checksum ∷ [] })
      spaced =
          match_here-plus false is_blank (plus true is_hex_like ∷ end ∷ []) (b' ' ∷ []) checksum
            (record { whole = checksum; groups = checksum ∷ [] }) (cc) (refl, tt)
            (hex_stops checksum h.checksum_fits)
            (match_here-plus-end is_hex_like checksum h.checksum_given h.checksum_fits)

-- A text between two characters that are no spaces.
abbrev Ends : Text → Type 0
Ends s =
    (c : ℕ) × (t : Text) × (d : ℕ) × (s ≡ (c ∷ t) ++ d ∷ [])
    × (is_space c ≡ false)
    × (is_space d ≡ false)

trim_space-Ends : (s : Text) → Ends s → trim_space s ≡ s
trim_space-Ends s (c, t, d, e, hc, hd) = rw e (trim_space_self c t d hc hd)

drop_cr-Ends : (s : Text) → Ends s → drop_cr s ≡ s
drop_cr-Ends s (c, t, d, e, hc, hd) = rw e (drop_cr-snoc (c ∷ t) d (not_cr d hd))
  where
    not_cr : (x : ℕ) → is_space x ≡ false → x ≢ 13
    not_cr x h = unfold is_space in ground arith

hex_not_space : (c : ℕ) → is_hex_like c ≡ true → is_space c ≡ false
unfolding is_space
hex_not_space c h = ground arith

-- The last character of a text, with what holds of every character.
last_of :
    (P : ℕ → Type 0) (s : Text) → s ≢ [] → All P s → (t : Text) × (d : ℕ) × (s ≡ t ++ d ∷ []) × P d
last_of P s ne h = let (t, d, e) = snoc_view s ne in (t, d, e, All-snoc t d (rw e at h))
  where
    All-snoc : (u : Text) (x : ℕ) → All P (u ++ x ∷ []) → P x
    All-snoc [] x q = q.0
    All-snoc (c ∷ u) x q = All-snoc u x q.1

parse_trimmed :
    (format : ChecksumFormat) (s : Text) (m : Match)
    → trim_space s ≡ s
    → match_here (line_rex format) s ≡ some m
    → parse_line format s ≡ named_groups format m.groups
unfolding parse_line
parse_trimmed format s m e found = rw (e, parse_line) (rw found)

module _ (name checksum : Text) where
  Ends-render_line :
      (format : ChecksumFormat)
      → IsEntry format name checksum
      → Ends (render_line format name checksum)
  unfolding render_line
  Ends-render_line gnu h =
      let (t, d, e, hd) = last_of _ name h.name_given h.name_fits.0 in
      ends_gnu checksum h.checksum_given h.checksum_fits t d e hd
    where
      ends_gnu :
          (s : Text)
          → s ≢ []
          → All (λ c. is_hex_like c ≡ true) s
          → (t : Text) (d : ℕ) → name ≡ t ++ d ∷ []
          → is_space d ≡ false
          → Ends (s ++ b' ' ∷ b' ' ∷ name)
      ends_gnu [] ne all t d e hd = absurd (ne refl)
      ends_gnu (c ∷ s) ne all t d e hd =
          (c, s ++ b' ' ∷ b' ' ∷ t, d, rw e (simp append_assoc), hex_not_space c all.0, hd)
  Ends-render_line bsd h =
      let (t, d, e, hd) = last_of _ checksum h.checksum_given h.checksum_fits in
      (
        b'S',
        codes "HA256 (" ++ (name ++ (codes ") = " ++ t)),
        d,
        rw e (simp append_assoc),
        (unfold is_space in refl),
        hex_not_space d hd,
      )

  -- A line is read as what it was written from.
  pub parse_line-render_line :
      (format : ChecksumFormat)
      → IsEntry format name checksum
      → parse_line format (render_line format name checksum) ≡ some (name, checksum)
  unfolding render_line named_groups
  parse_line-render_line gnu h =
      parse_trimmed gnu _ _ (trim_space-Ends _ (Ends-render_line gnu h)) (match-gnu name checksum h)
      ∙ ap (λ n. some (n, checksum)) h.name_fits.1
  parse_line-render_line bsd h =
      parse_trimmed bsd _ _ (trim_space-Ends _ (Ends-render_line bsd h)) (match-bsd name checksum h)

  pub render_line-no_cr :
      (format : ChecksumFormat)
      → IsEntry format name checksum
      → drop_cr (render_line format name checksum) ≡ render_line format name checksum
  render_line-no_cr format h = drop_cr-Ends _ (Ends-render_line format h)

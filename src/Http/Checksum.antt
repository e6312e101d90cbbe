-- ===== src/Http/Checksum.antt =====
-- The checksum of a reader is that of the bytes which it gave.
use containerdisks.Base.{ℕ, ◌≡◌, refl, sym, ap, ◌∙◌, [], ◌∷◌, ◌++◌, Text}
use containerdisks.Go.Encoding.{hex_encode}
use containerdisks.Http.{
  Net, ReadCloserWithChecksum, new_read_closer_with_checksum, tee, read, checksum,
}

module _ (N : Net) where
  open N use {World, Body, Hash}

  -- The bytes that a reader gives in some reads, one after the other, and the reader behind them.
  pub data Reads (r : ReadCloserWithChecksum N) : Text → ReadCloserWithChecksum N → Type 0 where
    start : Reads r [] r
    next :
        {given : Text} {s : ReadCloserWithChecksum N} (size : ℕ) (w : World)
        → Reads r given s
        → Reads r (given ++ (read N s size w).0.0) (read N s size w).0.2

  module _ (split : (a b : Text) (h : Hash) → N.write (a ++ b) h ≡ N.write b (N.write a h))
      (nothing : (h : Hash) → N.write [] h ≡ h) where
    tee_write : (p : Text) (h : Hash) → tee N p h ≡ N.write p h
    unfolding tee
    tee_write [] h = sym (nothing h)
    tee_write (c ∷ s) h = refl

    reads-hash :
        (r s : ReadCloserWithChecksum N) (given : Text)
        → Reads r given s
        → s.checksum_hash ≡ N.write given r.checksum_hash
    unfolding read
    reads-hash r _ _ start = sym (nothing r.checksum_hash)
    reads-hash r _ _ (next {given} {s} size w h) =
        tee_write (N.read s.body size w).0.0 s.checksum_hash
        ∙ (ap (N.write (N.read s.body size w).0.0) (reads-hash r s given h)
            ∙ sym (split given (N.read s.body size w).0.0 r.checksum_hash))

    -- However a body is read, in pieces of any size, the checksum of the reader is the one of all the
    -- bytes that it gave, written to the hash at once: of no byte that it did not give, and of none
    -- twice. A hash is taken to depend on the bytes only, not on how they are cut.
    pub reads-checksum :
        (body : Body) (hash : Hash) (given : Text) (s : ReadCloserWithChecksum N)
        → Reads (new_read_closer_with_checksum N body hash) given s
        → checksum N s ≡ hex_encode (N.sum (N.write given hash))
    unfolding checksum
    reads-checksum body hash given s h =
        ap (λ x. hex_encode (N.sum x))
          (reads-hash (new_read_closer_with_checksum N body hash) s given h)

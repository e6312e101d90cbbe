-- ===== src/Http.antt =====
-- pkg/http/http.go: the getter. net/http and the hash are parameters; the texts of the errors are kept.
pub mod Bodies
pub mod Checksum
use containerdisks.Base.{ℕ, Bool, ◌||◌, Option, [], ◌∷◌, ◌++◌, Text, codes, ltb}
use containerdisks.Go.Result.{Error, plain, message, Result}
use containerdisks.Go.Encoding.{hex_encode}
use containerdisks.Go.Strconv.{format_decimal}
use containerdisks.Effects.{
  branch, Eff, pure, raise, lift, call, call_ok, finally, on_error, ◌>>=◌, ◌>>◌,
}

pub record Response (Body : Type 0) : Type 0 where
  pub status_code : ℕ
  pub body : Body

-- `new_request` refuses a malformed address. `send` is Client.Do, which gives a response with a body
-- to close, or an error. `read` fills a buffer of some size: it gives the bytes read, and an error
-- that may come beside them. A hash is its state: `write` never fails.
pub record Net : Type 1 where
  pub World : Type 0
  pub Body : Type 0
  pub Hash : Type 0
  pub new_request : Text → Result (Unit {0})
  pub send : Text → World → Result (Response Body) × World
  pub read_all : Body → World → Result Text × World
  pub read : Body → ℕ → World → (Text × Option Error) × World
  pub close : Body → World → Result (Unit {0}) × World
  pub write : Text → Hash → Hash
  pub sum : Hash → Text

-- A response came with this body, or its body was closed.
pub data Event (Body : Type 0) : Type 0 where
  opened closed : Body → Event Body

-- `resp.StatusCode < 200 || resp.StatusCode > 299`
abbrev pub is_failure : ℕ → Bool
is_failure status_code = ltb status_code 200 || ltb 299 status_code

abbrev pub request_error : Text → Error → Error
request_error file_url e = plain (
    codes "failed to create request to load primary repository file from "
    ++ (file_url ++ (codes ": " ++ message e)))

abbrev pub load_error : Text → Error → Error
load_error file_url e = plain (
    codes "failed to load primary repository file from " ++ (file_url ++ (codes ": " ++ message e)))

unfoldable pub status_error : Text → ℕ → Error
status_error file_url status_code = plain (
    codes "failed to download "
    ++ (file_url ++ (codes ": status : " ++ (format_decimal status_code ++ codes " "))))

module _ (N : Net) where
  open N use {World, Body, Hash}

  abbrev pub M : Type 0 → Type 0
  M A = Eff World (Event Body) A

  -- The request and its response, which both downloads begin with.
  unfoldable pub request : Text → M (Response Body)
  request file_url = do
    on_error (λ e. raise (request_error file_url e)) (lift (N.new_request file_url))
    on_error (λ e. raise (load_error file_url e))
        (call_ok (λ (resp : Response Body). opened resp.body) (N.send file_url))

  abbrev pub close_body : Body → M (Unit {0})
  close_body body = call (closed body ∷ []) (N.close body)

  -- The body is closed behind the reading and behind an error.
  unfoldable pub get_all_with_context : Text → M Text
  get_all_with_context file_url = do
    resp ← request file_url
    finally
        (branch (is_failure resp.status_code) (raise (status_error file_url resp.status_code))
          (call [] (N.read_all resp.body)))
        (close_body resp.body)

  -- The reader that updates the hash by what it reads.
  pub record ReadCloserWithChecksum : Type 0 where
    pub body : Body
    pub checksum_hash : Hash

  abbrev pub new_read_closer_with_checksum : Body → Hash → ReadCloserWithChecksum
  new_read_closer_with_checksum body hash = record { body = body; checksum_hash = hash }

  -- `hash` is a fresh one. The body is closed only behind an error: the reader has it otherwise.
  unfoldable pub get_with_checksum_and_context : Text → Hash → M ReadCloserWithChecksum
  get_with_checksum_and_context file_url hash = do
    resp ← request file_url
    branch (is_failure resp.status_code)
        (finally (raise (status_error file_url resp.status_code)) (close_body resp.body))
        (pure (new_read_closer_with_checksum resp.body hash))

  -- io.TeeReader: what was read, if there is any, is written to the hash.
  unfoldable pub tee : Text → Hash → Hash
  tee [] hash = hash
  tee (c ∷ s) hash = N.write (c ∷ s) hash

  -- The reader changes: it comes back with the bytes and the error.
  unfoldable pub read :
      ReadCloserWithChecksum → ℕ → World → (Text × Option Error × ReadCloserWithChecksum) × World
  unfolding tee
  read r size w =
      let ((p, e), w') = N.read r.body size w in
      ((p, e, record r { checksum_hash = tee p r.checksum_hash }), w')

  unfoldable pub close : ReadCloserWithChecksum → M (Unit {0})
  close r = close_body r.body

  unfoldable pub checksum : ReadCloserWithChecksum → Text
  unfolding hex_encode
  checksum r = hex_encode (N.sum r.checksum_hash)

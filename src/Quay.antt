-- ===== src/Quay.antt =====
-- pkg/quay/quay.go: the client that updates a repository of quay.io. net/http, encoding/json, net/url
-- and the token file are parameters.
pub mod Calls
use containerdisks.Base.{ℕ, Bool, ◌||◌, List, [], ◌∷◌, ◌++◌, Text, codes, ltb}
use containerdisks.Go.Result.{Error, plain, message, Result, ok}
use containerdisks.Go.Path.{path_join}
use containerdisks.Go.Strconv.{format_decimal}
use containerdisks.Go.Strings.{trim_space}
use containerdisks.Effects.{branch, Eff, pure, raise, lift, call, finally, on_error, ◌>>=◌, ◌>>◌}

-- The two values that are encoded: `Description` and `Visibility`, each with its only field.
pub data Payload : Type 0 where
  description visibility : Text → Payload

-- url.URL, as far as the client fills it in.
pub record Url : Type 0 where
  pub scheme : Text
  pub host : Text
  pub path : Text

-- http.Header: the values by their names, in the order in which they are added.
abbrev pub Header : Type 0
Header = List (Text × Text)

pub record Request : Type 0 where
  pub method : Text
  pub url : Url
  pub header : Header
  pub content : Text

pub record Response (Body : Type 0) : Type 0 where
  pub status_code : ℕ
  pub body : Body

-- `send` is Client.Do on a request; a request that http.NewRequestWithContext refuses would be a nil
-- pointer, which the addresses made here do not give. `read_body` is what io.ReadAll gives of a body
-- before its end or an error, which is dropped.
pub record Net : Type 1 where
  pub World : Type 0
  pub Body : Type 0
  pub read_file : Text → World → Result Text × World
  pub marshal : Payload → Result Text
  pub url_text : Url → Text
  pub send : Request → World → Result (Response Body) × World
  pub read_body : Body → World → Text × World
  pub close : Body → World → Result (Unit {0}) × World

-- A request that is sent, and a body that is closed.
pub data Event (Body : Type 0) : Type 0 where
  sent : Request → Event Body
  closed : Body → Event Body

pub record QuayClient : Type 0 where
  pub token_file : Text
  pub org : Text

abbrev pub new_quay_client : Text → Text → QuayClient
new_quay_client token_file org = record { token_file = token_file; org = org }

abbrev pub method_put : Text
method_put = codes "PUT"

abbrev pub method_post : Text
method_post = codes "POST"

-- `fmt.Errorf("…: %v", err)`
abbrev pub errorf : Text → Error → Error
errorf p e = plain (p ++ message e)

module _ (N : Net) (q : QuayClient) where
  open N use {World, Body}

  abbrev pub M : Type 0 → Type 0
  M A = Eff World (Event Body) A

  unfoldable pub base : Text → Url
  unfolding path_join
  base repository = record {
    scheme = codes "https";
    host = codes "quay.io";
    path = path_join (codes "/api/v1/repository" ∷ q.org ∷ repository ∷ []);
  }

  abbrev pub header_of : Text → Header
  header_of token =
      (codes "Authorization", token) ∷ (codes "Content-Type", codes "application/json") ∷ []

  unfoldable pub header : M Header
  unfolding trim_space
  header = do
    raw_token ←
        on_error (λ e. raise (errorf (codes "error reading the quay token file: ") e))
          (call [] (N.read_file q.token_file))
    pure (header_of (codes "Bearer " ++ trim_space raw_token))

  abbrev pub is_failure : ℕ → Bool
  is_failure status_code = ltb status_code 200 || ltb 299 status_code

  abbrev pub body_text : Body → M Text
  body_text body w = let (text, w') = N.read_body body w in (ok text, [], w')

  unfoldable pub request_of : Text → Text → Text → Header → Text → Request
  unfolding base path_join
  request_of method repo subresource header content = record {
    method = method;
    url = record (base repo) { path = path_join ((base repo).path ∷ subresource ∷ []) };
    header = header;
    content = content;
  }

  -- The response of a request: the body is closed behind all else.
  unfoldable pub check_response : Request → Response Body → M (Unit {0})
  unfolding format_decimal
  check_response req resp =
      finally
        (branch (is_failure resp.status_code)
          (do
            body ← body_text resp.body
            raise (
                plain (
                  codes "failed to download "
                  ++ (N.url_text req.url
                      ++ (codes ": status : "
                          ++ (format_decimal resp.status_code
                              ++ (codes ": " ++ (body ++ codes " "))))))))
          (pure tt))
        (call (closed resp.body ∷ []) (N.close resp.body))

  unfoldable pub json : Text → Text → Text → Payload → M (Unit {0})
  json method repo subresource json_obj = do
    content ←
        on_error (λ e. raise (errorf (codes "failed unmarshalling struct: ") e))
          (lift (N.marshal json_obj))
    headers ← header
    let req = request_of method repo subresource headers content
    resp ←
        on_error (λ e. raise (errorf (codes "error performing rest call: ") e))
          (call (sent req ∷ []) (N.send req))
    check_response req resp

  unfoldable pub update : Text → Text → M (Unit {0})
  update repository description_text = do
    on_error (λ e. raise (errorf (codes "error updating the repository description: ") e))
        (json method_put repository [] (description description_text))
    on_error (λ e. raise (errorf (codes "error updating the repository visibility: ") e))
        (json method_post repository (codes "changevisibility") (visibility (codes "public")))

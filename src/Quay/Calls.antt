-- ===== src/Quay/Calls.antt =====
-- What the client sends, and what it does with the answers.
use containerdisks.Base.{
  ℕ, ◌≤◌, ◌≡◌, refl, sym, subst, ap, ◌∙◌, Bool, true, false, List, [], ◌∷◌, ◌++◌, append-nil, Text,
  codes, ◌⊎◌, inl, inr, arith,
}
use containerdisks.Go.Result.{Result, ok, err, panic}
use containerdisks.Go.Strings.{trim_space}
use containerdisks.Effects.{branch, pure, raise, call, finally, on_error, ◌>>=◌}
use containerdisks.Effects.Leaves.{
  Leaves, IsStop, Quiet, Quiet-call, Quiet-lift, Quiet-pure, Quiet-on_error, Quiet-seq, Leaves-seq,
  Leaves-on_error, Leaves-imp, Leaves-call,
}
use containerdisks.Quay.{
  Net, QuayClient, Payload, description, visibility, Request, Response, Event, sent, closed, Header,
  header_of, header, is_failure, request_of, check_response, json, update, errorf, method_put,
  method_post,
}

module _ (N : Net) (q : QuayClient) where
  open N use {World, Body}

  abbrev pub IsGood : ℕ → Type 0
  IsGood status_code = (200 ≤ status_code) × (status_code ≤ 299)

  -- The header that the token file gives: its content without the white space around it.
  pub record IsHeader (headers : Header) : Type 0 where
    pub raw_token : Text
    pub at : World
    pub given : (N.read_file q.token_file at).0 ≡ ok raw_token
    pub value : headers ≡ header_of N q (codes "Bearer " ++ trim_space raw_token)

  -- A response came, its body was closed, and the call succeeded exactly if the status is good.
  pub record IsAnswered (req : Request) (r : Result (Unit {0})) (es : List (Event Body))
      : Type 0 where
    pub response : Response Body
    pub at : World
    pub given : (N.send req at).0 ≡ ok response
    pub events : es ≡ sent req ∷ closed response.body ∷ []
    pub outcome :
        (IsGood response.status_code × (r ≡ ok tt)) ⊎ (¬ IsGood response.status_code × IsStop r)

  -- A request with the encoded value and the header was sent.
  pub record IsSent (method repo subresource : Text) (value : Payload) (r : Result (Unit {0}))
      (es : List (Event Body)) : Type 0 where
    pub content : Text
    pub encoded : N.marshal value ≡ ok content
    pub headers : Header
    pub authorized : IsHeader headers
    pub answer :
        (IsStop r × (es ≡ sent (request_of N q method repo subresource headers content) ∷ []))
        ⊎ IsAnswered (request_of N q method repo subresource headers content) r es

  -- Or nothing was sent, and the call failed.
  abbrev pub IsCall : Text → Text → Text → Payload → Result (Unit {0}) → List (Event Body) → Type 0
  IsCall method repo subresource value r es =
      (IsStop r × (es ≡ [])) ⊎ IsSent method repo subresource value r es

  good_code : (status_code : ℕ) → is_failure N q status_code ≡ false → IsGood status_code
  good_code status_code h = (ground arith, ground arith)

  bad_code : (status_code : ℕ) → is_failure N q status_code ≡ true → ¬ IsGood status_code
  bad_code status_code h k = ground arith

  header-IsHeader : Leaves (Quiet IsHeader) (header N q)
  unfolding header
  header-IsHeader =
      Quiet-seq _ _
        (Quiet-on_error {P = λ (t : Text). (w : World) × ((N.read_file q.token_file w).0 ≡ ok t)} _
          _ (Quiet-call (N.read_file q.token_file) (λ w t k. (w, k))))
        (λ s h. (refl, λ a k. absurd (stopped s a h k)))
        (λ t h. Quiet-pure _ (record { raw_token = t; at = h.0; given = h.1; value = refl }))
    where
      stopped : (s : Result Header) (a : Header) → IsStop s → s ≡ ok a → ⊥
      stopped (ok b) a h k = h
      stopped (err e) a h k = cc k
      stopped (panic p) a h k = cc k

  response-IsAnswered :
      (req : Request) (response : Response Body) (v : World) (b : Bool)
      (m : World → Result (Unit {0}) × List (Event Body) × World)
      → (N.send req v).0 ≡ ok response
      → is_failure N q response.status_code ≡ b
      → Leaves (λ r es. (es ≡ []) × IsStop r) m
      → Leaves
          (λ r es. IsAnswered req r (sent req ∷ es))
          (finally
            (branch b m (pure tt))
            (call (closed response.body ∷ []) (N.close response.body)))
  unfolding finally call branch pure
  response-IsAnswered req response v true m g e h = record {
    at = λ w. record {
      response = response;
      at = v;
      given = g;
      events = ap (λ l. sent req ∷ (l ++ closed response.body ∷ [])) (h.at w).0;
      outcome = inr (bad_code response.status_code e, (h.at w).1);
    };
  }
  response-IsAnswered req response v false m g e h = record {
    at = λ w. record {
      response = response;
      at = v;
      given = g;
      events = refl;
      outcome = inl (good_code response.status_code e, refl);
    };
  }

  check_response-IsAnswered :
      (req : Request) (response : Response Body) (v : World)
      → (N.send req v).0 ≡ ok response
      → Leaves (λ r es. IsAnswered req r (sent req ∷ es)) (check_response N q req response)
  unfolding check_response raise ◌>>=◌
  check_response-IsAnswered req response v g =
      response-IsAnswered req response v (is_failure N q response.status_code) _ g refl
        (record { at = λ w. (refl, tt) })

  stopped-IsCall :
      (method repo subresource : Text) (value : Payload) (s : Result (Unit {0}))
      → IsStop s
      → IsCall method repo subresource value s []
  stopped-IsCall method repo subresource value s h = inl (h, refl)

  -- A request with no response yet, and the response's handling behind it.
  send-IsSent :
      (method repo subresource : Text) (value : Payload) (content : Text) (headers : Header)
      → N.marshal value ≡ ok content
      → IsHeader headers
      → Leaves (IsCall method repo subresource value) (
          on_error
            (λ e. raise (errorf (codes "error performing rest call: ") e))
            (call
              (sent (request_of N q method repo subresource headers content) ∷ [])
              (N.send (request_of N q method repo subresource headers content)))
          >>= λ resp.
              check_response N q (request_of N q method repo subresource headers content) resp)
  send-IsSent method repo subresource value content headers m h =
      let req = request_of N q method repo subresource headers content in
      Leaves-seq _ _
        (Leaves-on_error
          {T = λ r es.
            (es ≡ sent req ∷ [])
            × ((resp : Response Body) → r ≡ ok resp → (w : World) × ((N.send req w).0 ≡ ok resp))}
          _ _ (Leaves-call (sent req ∷ []) (N.send req))
          (λ a es k. (k.0, λ resp n. (k.1.0, k.1.1 ∙ n))) (λ e es k. (k.0, λ resp n. absurd (cc n)))
          (λ p es k. (k.0, λ resp n. absurd (cc n))))
        (λ e es k. inr (record {
          content = content;
          encoded = m;
          headers = headers;
          authorized = h;
          answer = inl (tt, k.0);
        }))
        (λ p es k. inr (record {
          content = content;
          encoded = m;
          headers = headers;
          authorized = h;
          answer = inl (tt, k.0);
        }))
        (λ resp es k.
          Leaves-imp _
            (λ r fs a. inr (record {
              content = content;
              encoded = m;
              headers = headers;
              authorized = h;
              answer = inr (subst (λ l. IsAnswered req r (l ++ fs)) (sym k.0) a);
            }))
            (check_response-IsAnswered req resp (k.1 resp refl).0 (k.1 resp refl).1))

  -- One call: a request is sent at most, its body is closed if there is a response.
  json-IsCall :
      (method repo subresource : Text) (value : Payload)
      → Leaves (IsCall method repo subresource value) (json N q method repo subresource value)
  unfolding json
  json-IsCall method repo subresource value =
      Quiet-seq {P = λ (content : Text). N.marshal value ≡ ok content} _ _
        (Quiet-on_error _ _ (Quiet-lift (N.marshal value) (λ content k. k)))
        (stopped-IsCall method repo subresource value)
        (λ content m.
          Quiet-seq _ _ header-IsHeader (stopped-IsCall method repo subresource value)
            (λ headers h. send-IsSent method repo subresource value content headers m h))

  -- A call whose error may get a prefix.
  pub record IsStep (method repo subresource : Text) (value : Payload) (r : Result (Unit {0}))
      (es : List (Event Body)) : Type 0 where
    pub inner : Result (Unit {0})
    pub call_done : IsCall method repo subresource value inner es
    pub same_end : (IsStop inner × IsStop r) ⊎ ((inner ≡ ok tt) × (r ≡ ok tt))

  step-IsStep :
      (prefix method repo subresource : Text) (value : Payload)
      → Leaves
          (IsStep method repo subresource value)
          (on_error (λ e. raise (errorf prefix e)) (json N q method repo subresource value))
  step-IsStep prefix method repo subresource value =
      Leaves-on_error _ _ (json-IsCall method repo subresource value)
        (λ a es k. record { inner = ok a; call_done = k; same_end = inr (refl, refl) })
        (λ e es k. record { inner = err e; call_done = k; same_end = inl (tt, tt) })
        (λ p es k. record { inner = panic p; call_done = k; same_end = inl (tt, tt) })

  -- The description first; if that failed nothing more is sent, else the visibility.
  pub record IsUpdate (repository text : Text) (r : Result (Unit {0})) (es : List (Event Body))
      : Type 0 where
    pub first : Result (Unit {0})
    pub first_events : List (Event Body)
    pub rest : List (Event Body)
    pub events : es ≡ first_events ++ rest
    pub described : IsStep method_put repository [] (description text) first first_events
    pub outcome :
        (IsStop first × IsStop r × (rest ≡ []))
        ⊎ ((first ≡ ok tt)
            × IsStep method_post repository
                (codes "changevisibility")
                (visibility (codes "public"))
                r
                rest)

  update-Leaves :
      (repository text : Text) → Leaves (IsUpdate repository text) (update N q repository text)
  unfolding update
  update-Leaves repository text =
      Leaves-seq _ _
        (step-IsStep (codes "error updating the repository description: ") method_put repository []
          (description text))
        (λ e es k. record {
          first = err e;
          first_events = es;
          rest = [];
          events = sym (append-nil es);
          described = k;
          outcome = inl (tt, tt, refl);
        })
        (λ p es k. record {
          first = panic p;
          first_events = es;
          rest = [];
          events = sym (append-nil es);
          described = k;
          outcome = inl (tt, tt, refl);
        })
        (λ u es k.
          Leaves-imp _
            (λ r fs s. record {
              first = ok tt;
              first_events = es;
              rest = fs;
              events = refl;
              described = k;
              outcome = inr (refl, s);
            })
            (step-IsStep (codes "error updating the repository visibility: ") method_post repository
              (codes "changevisibility") (visibility (codes "public"))))

  -- Whatever the network answers, an update calls the repository with PUT and the description; only
  -- if that call succeeds it calls changevisibility with POST and "public", and it succeeds exactly
  -- if both do. A call sends one request at most, with the token of the token file, closes the body
  -- if there is a response, and succeeds exactly if there is one with a status from 200 to 299.
  pub update-IsUpdate :
      (repository text : Text) (w : World)
      → IsUpdate repository text
          ((update N q repository text) w).0
          ((update N q repository text) w).1
  update-IsUpdate repository text w = (update-Leaves repository text).at w

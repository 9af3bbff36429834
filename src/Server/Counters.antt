-- ===== src/Server/Counters.antt =====
-- The counters of the server over any requests.
use cautreo.Base.Bytes.{bytes_eq}
use cautreo.Server.Request.{Request, parse_request}
use cautreo.Base.{
  ℕ, true, false, none, some, [], ◌∷◌, ◌+◌, ◌<◌, ◌≤◌, refl, arith, ◌==◌, ◌||◌, ◌^◌, ◌≡◌, List, ◌%◌,
  Bool, Option, length, inc64, if◌then◌else◌, not,
}
use cautreo.Server.Handlers.{
  error_reply, health, info, models, streamed, completed, Reply, Engine, ServerStats, answer_error,
  generated, handle_completions, ErrorMessage, prompt_of, route, handle_connection,
  model_not_loaded, missing_prompt, tokens_of, tokenization_failed, path_health, path_info,
  path_models, path_completions, path_chat, not_found, post_method, must_be_post,
}

abbrev pub errors_of : Reply → ℕ
errors_of (error_reply code message) = 1
errors_of (health l n) = 0
errors_of (info l n e c) = 0
errors_of models = 0
errors_of (streamed t m) = 0
errors_of (completed n t) = 0

abbrev pub completions_of : Reply → ℕ
completions_of (error_reply code message) = 0
completions_of (health l n) = 0
completions_of (info l n e c) = 0
completions_of models = 0
completions_of (streamed t m) = 1
completions_of (completed n t) = 1

abbrev pub total : (Reply → ℕ) → List Reply → ℕ
total count [] = 0
total count (r ∷ rs) = count r + total count rs

answer-one : (r : Reply) → errors_of r + completions_of r ≤ 1
answer-one (error_reply code message) = omega arith
answer-one (health l n) = omega arith
answer-one (info l n e c) = omega arith
answer-one models = omega arith
answer-one (streamed t m) = omega arith
answer-one (completed n t) = omega arith

module _ {F : Type 0} (engine : Engine F) where
  -- The counters, as they are before and after an answer.
  abbrev Counts : ServerStats F → ServerStats F × Reply → Type 0
  Counts st (st', r) =
      (st'.n_requests ≡ st.n_requests)
      × (st'.n_errors ≡ (st.n_errors + errors_of r) % 2 ^ 64)
      × (st'.n_completions ≡ (st.n_completions + completions_of r) % 2 ^ 64)

  abbrev Small : ServerStats F → Type 0
  Small st = (st.n_errors < 2 ^ 64) × (st.n_completions < 2 ^ 64)

  answer_error-Counts :
      (st : ServerStats F) (code : ℕ) (message : ErrorMessage)
      → Small st
      → Counts st (answer_error st code message)
  unfolding answer_error
  answer_error-Counts st code message (a, b) = (refl, refl, omega (arith, b))

  generated-Counts :
      (st : ServerStats F) (tokens : List ℕ) (max_tokens : ℕ) (do_stream : Bool)
      → Small st
      → Counts st (generated engine st tokens max_tokens do_stream)
  unfolding generated
  generated-Counts st tokens max_tokens true (a, b) = (refl, omega (arith, a), refl)
  generated-Counts st tokens max_tokens false (a, b) = (refl, omega (arith, a), refl)

  Counts-if :
      (st : ServerStats F) (b : Bool) (x y : ServerStats F × Reply)
      → Counts st x
      → Counts st y
      → Counts st (if b then x else y)
  Counts-if st true x y p q = p
  Counts-if st false x y p q = q

  handle_completions-Counts :
      (st : ServerStats F) (body : List ℕ)
      → Small st
      → Counts st (handle_completions engine st body)
  unfolding handle_completions
  handle_completions-Counts st body h =
      Counts-if st (not engine.is_loaded) _ _ (answer_error-Counts st 500 model_not_loaded h) (
        Counts-if st (length (prompt_of body) == 0) _ _
          (answer_error-Counts st 400 missing_prompt h)
          (Counts-if st (length (tokens_of engine body (prompt_of body)) == 0) _ _
            (answer_error-Counts st 500 tokenization_failed h) (generated-Counts st _ _ _ h)))

  unchanged-Counts :
      (st : ServerStats F) (r : Reply)
      → Small st
      → errors_of r ≡ 0
      → completions_of r ≡ 0
      → Counts st (st, r)
  unchanged-Counts st r (a, b) e c = (refl, omega (arith, a, e), omega (arith, b, c))

  route-Counts : (st : ServerStats F) (r : Request) → Small st → Counts st (route engine st r)
  unfolding route
  route-Counts st r h =
      Counts-if st (bytes_eq r.path path_health) _ _
        (unchanged-Counts st (health engine.is_loaded st.n_requests) h refl refl)
        (Counts-if st (bytes_eq r.path path_info) _ _
          (unchanged-Counts st (info engine.is_loaded st.n_requests st.n_errors st.n_completions) h
            refl refl)
          (Counts-if st (bytes_eq r.path path_models) _ _ (unchanged-Counts st models h refl refl) (
            Counts-if st (bytes_eq r.path path_completions || bytes_eq r.path path_chat) _ _
              (Counts-if st (bytes_eq r.method post_method) _ _
                (handle_completions-Counts st r.body h) (answer_error-Counts st 400 must_be_post h))
              (answer_error-Counts st 404 not_found h))))

  -- The connections one after the other, with what is answered.
  abbrev pub serve : List (Option (List ℕ)) → ServerStats F → ServerStats F × List Reply
  serve [] st = (st, [])
  serve (none ∷ cs) st = serve cs st
  serve (some received ∷ cs) st =
      let done = handle_connection engine st (some received) in
      let rest = serve cs done.0 in (rest.0, elim done.1 [ none ↦ rest.1 | some r ↦ r ∷ rest.1 ])

  -- For any connections, received or failed, while no counter plus their number reaches 2⁶⁴: the requests
  -- counted are those answered, the errors the answers with an error code, and the completions the answers
  -- with a completion or a stream.
  pub serve-counts :
      (cs : List (Option (List ℕ))) (st : ServerStats F)
      → st.n_requests + length cs < 2 ^ 64
      → st.n_errors + length cs < 2 ^ 64
      → st.n_completions + length cs < 2 ^ 64
      → ((serve cs st).0.n_requests ≡ st.n_requests + length (serve cs st).1)
        × ((serve cs st).0.n_errors ≡ st.n_errors + total errors_of (serve cs st).1)
        × ((serve cs st).0.n_completions ≡ st.n_completions + total completions_of (serve cs st).1)
  unfolding handle_connection
  serve-counts [] st a b c = (omega arith, omega arith, omega arith)
  serve-counts (none ∷ cs) st a b c =
      serve-counts cs st (omega (arith, a)) (omega (arith, b)) (omega (arith, c))
  serve-counts (some received ∷ cs) st a b c =
      let counted : ServerStats F = record st { n_requests = inc64 st.n_requests } in
      let done = route engine counted (parse_request 32768 received) in
      let (k, e, f) =
        route-Counts counted (parse_request 32768 received) (omega (arith, b), omega (arith, c)) in
      let one = answer-one done.1 in
      let (x, y, z) =
        serve-counts cs done.0 (omega (arith, k, a)) (omega (arith, e, b, one))
          (omega (arith, f, c, one)) in
      (omega (arith, x, k, a), omega (arith, y, e, b, one), omega (arith, z, f, c, one))

-- ===== src/Server/Handlers.antt =====
-- The handlers of server/server.c and the way a request takes through them. What is sent is an answer of
-- the type Reply; `engine` is what the functions of the engine answer. Memory is always given.
use cautreo.Server.Request.{input_ids, Request, parse_request}
use cautreo.Server.Json.{json_get_str, json_get_int, json_get_bool}
use cautreo.Base.{
  ℕ, false, none, some, [], ◌∷◌, ◌==◌, ◌||◌, not, inc64, Bool, List, Option, if◌then◌else◌, length,
}
use cautreo.Base.Bytes.{bytes_eq}

pub data ErrorMessage : Type 0 where
  model_not_loaded missing_prompt tokenization_failed must_be_post not_found : ErrorMessage

-- `is_loaded` is ct_engine_is_loaded, `tokenize` ct_engine_tokenize with no token for a failure, and `generate`
-- ct_engine_generate, the tokens and the rate.
pub record Engine (F : Type 0) : Type 0 where
  pub is_loaded : Bool
  pub tokenize : List ℕ → List ℕ
  pub generate : List ℕ → ℕ → List ℕ × F

pub record ServerStats (F : Type 0) : Type 0 where
  pub n_requests : ℕ
  pub n_completions : ℕ
  pub n_errors : ℕ
  pub avg_tps : F

-- An error with its code, the three reports, a stream for the tokens and the bound, and a completion with the
-- number of the prompt's tokens and those generated.
pub data Reply : Type 0 where
  error_reply : ℕ → ErrorMessage → Reply
  health : Bool → ℕ → Reply
  info : Bool → ℕ → ℕ → ℕ → Reply
  models : Reply
  streamed : List ℕ → ℕ → Reply
  completed : ℕ → List ℕ → Reply

-- "/health".
abbrev pub path_health : List ℕ
path_health = b'/' ∷ b'h' ∷ b'e' ∷ b'a' ∷ b'l' ∷ b't' ∷ b'h' ∷ []

-- "/info".
abbrev pub path_info : List ℕ
path_info = b'/' ∷ b'i' ∷ b'n' ∷ b'f' ∷ b'o' ∷ []

-- "/v1/models".
abbrev pub path_models : List ℕ
path_models = b'/' ∷ b'v' ∷ b'1' ∷ b'/' ∷ b'm' ∷ b'o' ∷ b'd' ∷ b'e' ∷ b'l' ∷ b's' ∷ []

-- "/v1/completions".
abbrev pub path_completions : List ℕ
path_completions =
    b'/' ∷ b'v' ∷ b'1' ∷ b'/' ∷ b'c' ∷ b'o' ∷ b'm' ∷ b'p' ∷ b'l' ∷ b'e' ∷ b't' ∷ b'i' ∷ b'o' ∷ b'n'
    ∷ b's' ∷ []

-- "/v1/chat/completions".
abbrev pub path_chat : List ℕ
path_chat =
    b'/' ∷ b'v' ∷ b'1' ∷ b'/' ∷ b'c' ∷ b'h' ∷ b'a' ∷ b't' ∷ b'/' ∷ b'c' ∷ b'o' ∷ b'm' ∷ b'p' ∷ b'l'
    ∷ b'e' ∷ b't' ∷ b'i' ∷ b'o' ∷ b'n' ∷ b's' ∷ []

-- "POST".
abbrev pub post_method : List ℕ
post_method = b'P' ∷ b'O' ∷ b'S' ∷ b'T' ∷ []

-- The field "prompt", or else the first field "content".
unfoldable pub prompt_of : List ℕ → List ℕ
prompt_of body =
    let content : List ℕ =
      elim (json_get_str body (b'c' ∷ b'o' ∷ b'n' ∷ b't' ∷ b'e' ∷ b'n' ∷ b't' ∷ []) 4096) [
        | none ↦ []
        | some s ↦ s
      ] in
    elim (json_get_str body (b'p' ∷ b'r' ∷ b'o' ∷ b'm' ∷ b'p' ∷ b't' ∷ []) 4096) [
      | none ↦ content
      | some s ↦ if length s == 0 then content else s
    ]

unfoldable pub answer_error :
    {F : Type 0} → ServerStats F → ℕ → ErrorMessage → ServerStats F × Reply
answer_error st code message =
    (record st { n_errors = inc64 st.n_errors }, error_reply code message)

module _ {F : Type 0} (engine : Engine F) where
  unfoldable pub tokens_of : List ℕ → List ℕ → List ℕ
  tokens_of body prompt =
      let ids = input_ids body in if length ids == 0 then engine.tokenize prompt else ids

  unfoldable pub generated : ServerStats F → List ℕ → ℕ → Bool → ServerStats F × Reply
  generated st tokens max_tokens do_stream =
      if do_stream
      then (record st { n_completions = inc64 st.n_completions }, streamed tokens max_tokens)
      else let gen = engine.generate tokens max_tokens in
        (
          record st { n_completions = inc64 st.n_completions; avg_tps = gen.1 },
          completed (length tokens) gen.0,
        )

  unfoldable pub handle_completions : ServerStats F → List ℕ → ServerStats F × Reply
  handle_completions st body =
      let prompt = prompt_of body in
      let max_tokens =
        json_get_int body (b'm' ∷ b'a' ∷ b'x' ∷ b'_' ∷ b't' ∷ b'o' ∷ b'k' ∷ b'e' ∷ b'n' ∷ b's' ∷ [])
          64 in
      let do_stream = json_get_bool body (b's' ∷ b't' ∷ b'r' ∷ b'e' ∷ b'a' ∷ b'm' ∷ []) false in
      if not engine.is_loaded
      then answer_error st 500 model_not_loaded
      else if length prompt == 0
      then answer_error st 400 missing_prompt
      else if length (tokens_of body prompt) == 0
      then answer_error st 500 tokenization_failed
      else generated st (tokens_of body prompt) max_tokens do_stream

  unfoldable pub route : ServerStats F → Request → ServerStats F × Reply
  route st r =
      if bytes_eq r.path path_health
      then (st, health engine.is_loaded st.n_requests)
      else if bytes_eq r.path path_info
      then (st, info engine.is_loaded st.n_requests st.n_errors st.n_completions)
      else if bytes_eq r.path path_models
      then (st, models)
      else if bytes_eq r.path path_completions || bytes_eq r.path path_chat
      then (if bytes_eq r.method post_method
          then handle_completions st r.body
          else answer_error st 400 must_be_post)
      else answer_error st 404 not_found

  -- `received` are the bytes received up to the first zero, at most 65535; `none` is an error or the end of the
  -- stream, to which nothing is answered.
  unfoldable pub handle_connection : ServerStats F → Option (List ℕ) → ServerStats F × Option Reply
  handle_connection st none = (st, none)
  handle_connection st (some received) =
      let counted = record st { n_requests = inc64 st.n_requests } in
      let done = route counted (parse_request 32768 received) in (done.0, some done.1)

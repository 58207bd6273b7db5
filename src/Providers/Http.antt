-- ===== src/Providers/Http.antt =====
-- What the clients use of net/http and encoding/json, and the parts of `Stream` that they share.
use capyclaw.Prelude.{
  ℕ, nat_eq, ◌/◌, String, Option, none, some, List, [], ◌∷◌, concat, if◌then◌else◌, Int64, Float64,
  add_int, FloatOps,
}
use capyclaw.Action.{Result, Action, pure, fail, within, ◌>>=◌}
use capyclaw.Llm
use capyclaw.Llm.Sse.{Bytes, ReadError}

-- a POST with a JSON body
pub record HttpRequest : Type 0 where
  pub url : String
  pub headers : List (String × String)
  pub body : String

-- the bytes of the body, how reading it ends, and after how many lines the context is done
pub record HttpResponse : Type 0 where
  pub status : ℕ
  pub body : Bytes
  pub last : ReadError
  pub rounds : ℕ

-- `http.NewRequestWithContext`, `Client.Do`, the text of a number, and a text from its bytes
pub record Http (W : Type 0) : Type 0 where
  pub new_request : HttpRequest → Result HttpRequest
  pub run : HttpRequest → Action W HttpResponse
  pub number_text : ℕ → String
  pub from_bytes : Bytes → String

module _ {W : Type 0} (http : Http W) where
  -- an answer with another status than 200 is an error with the text of its body
  unfoldable pub check_status : String → HttpResponse → Action W HttpResponse
  check_status name resp =
      if nat_eq resp.status 200
      then pure resp
      else fail (
          concat (
            name
            ∷ " API error (status "
            ∷ http.number_text resp.status
            ∷ "): "
            ∷ http.from_bytes resp.body
            ∷ []))

  -- `http.NewRequestWithContext` and `Client.Do`, each with the context of its error
  unfoldable pub post_any : String → String → HttpRequest → Action W HttpResponse
  post_any creating executing req = do
    made ← within creating (λ w. (http.new_request req, w))
    within executing (http.run made)

  -- the same, with an answer that has the status 200
  unfoldable pub post : String → HttpRequest → Action W HttpResponse
  post name req = do
    resp ← post_any "creating request: " "executing request: " req
    check_status name resp

-- the rough estimate of `CountTokens`; `len` is the length in bytes
unfoldable pub estimate : (String → ℕ) → List Llm.Message → Int64 → Int64
estimate len [] total = total
estimate len (m ∷ ms) total = estimate len ms (add_int total (len m.content / 4))

-- `x` in an `if x > 0`
unfoldable pub if_positive : FloatOps → Float64 → Option Float64
if_positive float t = if float.lt 0 t then some t else none

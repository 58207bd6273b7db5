-- ===== src/Middleware/Http.antt =====
-- What internal/riverbank/middleware uses of net/http: a request with its headers, the values of its
-- context, and the headers of the answer.
use Prim.Native.Char.{code}
use capyclaw.Prelude.{
  ℕ, nat_eq, ◌&&◌, String, String_eq, ◌==◌, Option, none, some, List, [], ◌∷◌, Map, lookup, insert,
  if◌then◌else◌,
}
use capyclaw.Action.{ok, Action}

-- a header that is missing reads as the empty text
pub record Request : Type 0 where
  pub method : String
  pub path : String
  pub headers : Map String String
  pub remote_addr : String
  pub user_agent : String

-- `context.WithValue`, for the four keys
pub record Context : Type 0 where
  pub user_id : Option String
  pub tenant_id : Option String
  pub role : Option String
  pub request_id : Option String

-- `r.Context().Value(key).(string)`
abbrev pub value_or_empty : Option String → String
value_or_empty none = ""
value_or_empty (some t) = t

abbrev pub header : String → Request → String
header name r = value_or_empty (lookup name r.headers)

-- the headers of the answer so far, and the rest of the world
pub record Exchange (W : Type 0) : Type 0 where
  pub sent : Map String String
  pub world : W

-- the status and the body of the answer
pub record Response : Type 0 where
  pub status : ℕ
  pub body : String

abbrev pub Handler : Type 0 → Type 0
Handler W = Request → Context → Action (Exchange W) Response

module _ {W : Type 0} where
  -- `w.Header().Set(name, value)`
  abbrev pub set_header : String → String → Exchange W → Exchange W
  set_header name text x = record x { sent = insert name text x.sent }

  -- `http.Error` and `w.WriteHeader`
  abbrev pub answer : ℕ → String → Action (Exchange W) Response
  answer status body x = (ok (record { status = status; body = body }), x)

  abbrev pub at_world : {A : Type 0} → Action W A → Action (Exchange W) A
  at_world m x = let (r, w) = m x.world in (r, record x { world = w })

-- `strings.TrimPrefix`, if the text has the prefix
unfoldable pub strip_text : String → String → Option String
strip_text String.[] s = some s
strip_text (String.◌∷◌ p ps) String.[] = none
strip_text (String.◌∷◌ p ps) (String.◌∷◌ c s) =
    if nat_eq (code p) (code c) then strip_text ps s else none

abbrev pub slash : ℕ
slash = 47

-- `strings.Split(s, "/")`
unfoldable pub split_slashes : String → List String
split_slashes String.[] = "" ∷ []
split_slashes (String.◌∷◌ c s) =
    let rest = split_slashes s in
    if nat_eq (code c) slash then "" ∷ rest else elim rest [
      | [] ↦ String.◌∷◌ c String.[] ∷ []
      | first ∷ others ↦ String.◌∷◌ c first ∷ others
    ]

-- `strings.Trim(s, "/")`, from the left and from the right
unfoldable pub trim_left : String → String
trim_left String.[] = ""
trim_left (String.◌∷◌ c s) = if nat_eq (code c) slash then trim_left s else String.◌∷◌ c s

unfoldable pub trim_right : String → String
trim_right String.[] = ""
trim_right (String.◌∷◌ c s) =
    let rest = trim_right s in if nat_eq (code c) slash && rest == "" then "" else String.◌∷◌ c rest

-- ===== src/HttpApi/Access.antt =====
-- pkg/api/server.go, and the same in pkg/supervisor/server.go: which requests the middleware for the
-- API key lets pass, where a key is configured, and which origins may open a WebSocket. What the
-- environment and net/url say are arguments.
use Prim.Native.String.{len, slice, ◌++◌ as str_append}
use text.Mathlib.Text.{starts_with}
use text.Mathlib.TextEquality.{starts_with_iff}
use text.Mathlib.TextPositions.{slice-append_right, len-append}
use mathlib.Core.Bool.{false≢true}
use dtvn.Prelude.{
  ◌↔◌, ◌≢◌, String, Bool, true, false, not, ◌||◌, ◌==◌, Option, none, some, List, [], ◌∷◌, ◌⊎◌, inl,
  inr, if◌then◌else◌, ◌≡◌, refl, sym, ap, ◌∙◌, Bool-cases, string_eq,
}

-- the path and the headers that are read
pub record Request : Type 0 where
  pub path : String
  pub host : String
  pub origin : String
  pub x_api_key : String
  pub authorization : String

abbrev pub trim_prefix : String → String → String
trim_prefix s prefix = if starts_with s prefix then slice s (len prefix) (len s) else s

-- by the headers `X-API-Key` and `Authorization`
abbrev pub presented : String → String → String
presented x_api_key authorization =
    if x_api_key == ""
    then if starts_with authorization "Bearer " then trim_prefix authorization "Bearer " else ""
    else x_api_key

unfoldable pub presented_key : Request → String
presented_key r = presented r.x_api_key r.authorization

-- of a node, and of the supervisor
unfoldable pub is_exempt : String → Bool
is_exempt path = path == "/health" || path == "/ws" || not (starts_with path "/api/")

unfoldable pub is_exempt_at_supervisor : String → Bool
is_exempt_at_supervisor path = path == "/ws" || not (starts_with path "/api/")

-- Whether the request is passed on; the other answer is 401.
unfoldable pub api_key_middleware : (String → Bool) → String → Request → Bool
unfolding presented_key
api_key_middleware is_exempt api_key r =
    if is_exempt r.path then true else presented_key r == api_key

abbrev is_localhost : String → Bool
is_localhost name = name == "localhost" || name == "127.0.0.1" || name == "::1"

unfoldable pub is_listed : (String → String → Bool) → String → List String → Bool
is_listed equal_fold origin [] = false
is_listed equal_fold origin (allowed ∷ rest) =
    let is_later = is_listed equal_fold origin rest in
    if allowed == "" then is_later else equal_fold origin allowed || is_later

-- `parse` gives the host with its port, and without; `allowed` is the list of the environment.
-- by the host of the origin with its port and without, if it can be read
abbrev from_browser :
    (String → String → Bool) → List String → Request → Option (String × String) → Bool
from_browser equal_fold allowed r none = false
from_browser equal_fold allowed r (some (origin_host, name)) =
    equal_fold origin_host r.host || is_localhost name || is_listed equal_fold r.origin allowed

unfoldable pub check_ws_origin :
    (String → Option (String × String)) → (String → String → Bool) → List String → Request → Bool
unfolding is_listed
check_ws_origin parse equal_fold allowed r =
    if r.origin == "" then true else from_browser equal_fold allowed r (parse r.origin)

-- The path is one of the API's.
abbrev pub IsUnderApi : String → Type 0
IsUnderApi path = (rest : String) × (path ≡ str_append "/api/" rest)

-- The request has the key in the one header or, where that is missing, in the other.
abbrev pub Presents : String → Request → Type 0
Presents api_key r =
    (r.x_api_key ≡ api_key)
    ⊎ ((r.x_api_key ≡ "") × (r.authorization ≡ str_append "Bearer " api_key))

trim-append :
    (prefix s : String) → slice (str_append prefix s) (len prefix) (len (str_append prefix s)) ≡ s
trim-append prefix s =
    ap (slice (str_append prefix s) (len prefix)) (len-append prefix s)
    ∙ slice-append_right prefix s

module _ (x auth : String) where
  presented_first : (x == "") ≡ false → presented x auth ≡ x
  presented_first e = rw e refl

  presented_none : (x == "") ≡ true → starts_with auth "Bearer " ≡ false → presented x auth ≡ ""
  presented_none e f = rw (e, f) refl

  presented_bearer :
      (x == "") ≡ true
      → starts_with auth "Bearer " ≡ true
      → presented x auth ≡ slice auth (len "Bearer ") (len auth)
  presented_bearer e f = rw (e, f) refl

  presented_iff :
      (api_key : String)
      → api_key ≢ ""
      → (presented x auth ≡ api_key)
        ↔ ((x ≡ api_key) ⊎ ((x ≡ "") × (auth ≡ str_append "Bearer " api_key)))
  presented_iff api_key set = (there, back)
    where
      after : String → String
      after a = slice a (len "Bearer ") (len a)

      there :
          presented x auth ≡ api_key
          → (x ≡ api_key) ⊎ ((x ≡ "") × (auth ≡ str_append "Bearer " api_key))
      there h = elim (Bool-cases (x == "")) [
        | inr e ↦ inl (sym (presented_first e) ∙ h)
        | inl e ↦ elim (Bool-cases (starts_with auth "Bearer ")) [
          | inr f ↦ absurd (set (sym h ∙ presented_none e f))
          | inl f ↦
              let (rest, at) = (starts_with_iff auth "Bearer ").0 f in
              let is_key : rest ≡ api_key =
                sym (trim-append "Bearer " rest) ∙ ap after at ∙ sym (presented_bearer e f) ∙ h in
              inr ((string_eq.beq_iff x "").0 e, sym at ∙ ap (str_append "Bearer ") is_key)
        ]
      ]

      back :
          (x ≡ api_key) ⊎ ((x ≡ "") × (auth ≡ str_append "Bearer " api_key))
          → presented x auth ≡ api_key
      back (inl e) = elim (Bool-cases (x == "")) [
        | inl f ↦ absurd (set (sym e ∙ (string_eq.beq_iff x "").0 f))
        | inr f ↦ presented_first f ∙ e
      ]
      back (inr (e, f)) =
          presented_bearer ((string_eq.beq_iff x "").1 e)
            ((starts_with_iff auth "Bearer ").1 (api_key, sym f))
          ∙ ap after f
          ∙ trim-append "Bearer " api_key

-- A path that is none of the API's is exempt, and only such a one.
exempt_lem : (path : String) → is_exempt path ≡ not (starts_with path "/api/")
unfolding is_exempt
exempt_lem path = elim (Bool-cases (path == "/health")) [
  | inl e ↦ rw ((string_eq.beq_iff path "/health").0 e) refl
  | inr e ↦ elim (Bool-cases (path == "/ws")) [
    | inl f ↦ rw ((string_eq.beq_iff path "/ws").0 f) refl
    | inr f ↦ rw (e, f) refl
  ]
]

exempt_at_supervisor_lem :
    (path : String) → is_exempt_at_supervisor path ≡ not (starts_with path "/api/")
unfolding is_exempt_at_supervisor
exempt_at_supervisor_lem path = elim (Bool-cases (path == "/ws")) [
  | inl f ↦ rw ((string_eq.beq_iff path "/ws").0 f) refl
  | inr f ↦ rw f refl
]

passes_iff :
    (exempt : String → Bool) (api_key : String) (r : Request)
    → api_key ≢ ""
    → exempt r.path ≡ not (starts_with r.path "/api/")
    → (api_key_middleware exempt api_key r ≡ true) ↔ (IsUnderApi r.path → Presents api_key r)
unfolding api_key_middleware presented_key
passes_iff exempt api_key r set e = elim (Bool-cases (starts_with r.path "/api/")) [
  | inl under ↦
      let closed : exempt r.path ≡ false = e ∙ ap not under in
      let (rest, at) = (starts_with_iff r.path "/api/").0 under in
      let key = presented_iff r.x_api_key r.authorization api_key set in
      let asked = string_eq.beq_iff (presented r.x_api_key r.authorization) api_key in
      simp closed ((λ h u. key.0 (asked.0 h)), (λ h. asked.1 (key.1 (h (rest, sym at)))))
  | inr other ↦
      let exempted : exempt r.path ≡ true = e ∙ ap not other in
      simp exempted (
        (λ h u.
            absurd (false≢true (sym other ∙ (starts_with_iff r.path "/api/").1 (u.0, sym u.1)))),
        (λ h. refl),
      )
]

-- Where the key that is configured is not empty, a node, and likewise the supervisor, passes a
-- request on exactly if its path is not under `/api/`, or it has the key in `X-API-Key` or, where
-- that is empty, in `Authorization` after `Bearer `.
pub api_key_middleware_iff :
    (api_key : String) (r : Request)
    → api_key ≢ ""
    → ((api_key_middleware is_exempt api_key r ≡ true) ↔ (IsUnderApi r.path → Presents api_key r))
      × ((api_key_middleware is_exempt_at_supervisor api_key r ≡ true)
          ↔ (IsUnderApi r.path → Presents api_key r))
api_key_middleware_iff api_key r set = (
  passes_iff is_exempt api_key r set (exempt_lem r.path),
  passes_iff is_exempt_at_supervisor api_key r set (exempt_at_supervisor_lem r.path),
)

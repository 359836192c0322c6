-- ===== src/Auth/Saml/Cookies.antt =====
-- baseapp/auth/saml/state.go: the store that keeps the request id in a cookie of the browser.
use go_baseapp.Prelude.{
  ℕ, ◌-◌, ◌≡◌, refl, inl, Bool, true, false, not, ◌&&◌, ◌||◌, Option, none, some, List, [], ◌∷◌,
  ◌++◌, arith, ltb, leb, ◌==◌, if◌then◌else◌, length, take, length-append, take-length-append, All,
}
use go_baseapp.Text.{Text, codes, last_is, text_eq}
use go_baseapp.Text.Brackets.{last_is-append}
use go_baseapp.Text.Dict.{lookup, insert, lookup-insert}
use go_baseapp.Auth.Saml.{IdStore, Request}

-- net/http: a byte that may stand in the value of a cookie.
unfoldable pub is_cookie_byte : ℕ → Bool
is_cookie_byte c =
    leb 0x20 c && ltb c 0x7f && not (c == b'"') && not (c == b';') && not (c == b'\\')

keep_cookie_bytes : Text → Text
unfolding is_cookie_byte
keep_cookie_bytes [] = []
keep_cookie_bytes (c ∷ s) =
    let rest = keep_cookie_bytes s in if is_cookie_byte c then c ∷ rest else rest

has_gap : Text → Bool
has_gap [] = false
has_gap (c ∷ s) = c == b' ' || c == b',' || has_gap s

-- http.SetCookie's value: without the bytes that may not stand in it, and quoted if it holds a space
-- or a comma.
unfoldable pub written_value : Text → Text
unfolding keep_cookie_bytes has_gap
written_value v = let s = keep_cookie_bytes v in if has_gap s then b'"' ∷ (s ++ b'"' ∷ []) else s

unquoted : Text → Text
unquoted [] = []
unquoted (c ∷ s) = if c == b'"' && last_is s b'"' then take (length s - 1) s else c ∷ s

all_cookie_bytes : Text → Bool
unfolding is_cookie_byte
all_cookie_bytes [] = true
all_cookie_bytes (c ∷ s) = is_cookie_byte c && all_cookie_bytes s

-- The value that Request.Cookie reads; a cookie with another value is skipped.
unfoldable pub read_value : Text → Option Text
unfolding unquoted all_cookie_bytes
read_value raw = let s = unquoted raw in if all_cookie_bytes s then some s else none

-- The cookies that the browser sends, by name, as they were set.
abbrev pub Jar : Type 0
Jar = List (Text × Text)

abbrev pub cookie_name : Text
cookie_name = codes "saml_id"

or_empty : Option Text → Text
or_empty none = []
or_empty (some v) = v

-- Request.Cookie: no cookie, or none with a value that can be read, is ErrNoCookie.
cookie_value : Option Text → Option Text
cookie_value none = none
cookie_value (some raw) = read_value raw

-- cookieIDStore, over the browser's cookies while they have not expired.
unfoldable pub cookie_id_store : IdStore Jar
unfolding or_empty cookie_value
cookie_id_store = record {
  store_id = λ r id jar. (none, insert cookie_name (written_value id) jar);
  get_id = λ r jar. inl (or_empty (cookie_value (lookup cookie_name jar)));
}

-- A text of bytes that a cookie may hold.
abbrev pub IsCookieText : Text → Type 0
IsCookieText s = All (λ c. is_cookie_byte c ≡ true) s

keep_cookie_bytes-IsCookieText : (s : Text) → IsCookieText s → keep_cookie_bytes s ≡ s
unfolding keep_cookie_bytes
keep_cookie_bytes-IsCookieText [] h = refl
keep_cookie_bytes-IsCookieText (c ∷ s) (p, h) = rw (p, keep_cookie_bytes-IsCookieText s h) refl

all_cookie_bytes-IsCookieText : (s : Text) → IsCookieText s → all_cookie_bytes s ≡ true
unfolding all_cookie_bytes
all_cookie_bytes-IsCookieText [] h = refl
all_cookie_bytes-IsCookieText (c ∷ s) (p, h) = rw (p, all_cookie_bytes-IsCookieText s h) refl

unquoted_quoted : (s : Text) → unquoted (b'"' ∷ (s ++ b'"' ∷ [])) ≡ s
unfolding unquoted
unquoted_quoted s =
    let n : length (s ++ b'"' ∷ []) - 1 ≡ length s = omega (arith, length-append s (b'"' ∷ [])) in
    rw (last_is-append s b'"', n) (take-length-append s (b'"' ∷ []))

unquoted-IsCookieText : (s : Text) → IsCookieText s → unquoted s ≡ s
unfolding unquoted is_cookie_byte
unquoted-IsCookieText [] h = refl
unquoted-IsCookieText (c ∷ s) (p, h) = ground arith

-- What a cookie's value is written as, is read as the value.
pub read_value-written_value : (s : Text) → IsCookieText s → read_value (written_value s) ≡ some s
unfolding read_value written_value
read_value-written_value s h = ground (
  arith,
  keep_cookie_bytes-IsCookieText s h,
  all_cookie_bytes-IsCookieText s h,
  unquoted_quoted s,
  unquoted-IsCookieText s h,
)

-- The id that was stored last is the one that is read.
pub get_id-store_id :
    (r r' : Request) (id : Text) (jar : Jar)
    → IsCookieText id
    → cookie_id_store.get_id r' (cookie_id_store.store_id r id jar).1 ≡ inl id
unfolding cookie_id_store text_eq
get_id-store_id r r' id jar h =
    rw (lookup-insert cookie_name cookie_name (written_value id) jar, read_value-written_value id h)
      refl

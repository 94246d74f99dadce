-- ===== src/Bridge/Client/Urls.antt =====
-- The URLs that a client requests.
use opencost_ai.Prelude.{
  List, ◌∷◌, [], ◌++◌, ◌&&◌, is_nil, ap, sym, ◌∙◌, ◌≡◌, ◌≢◌, refl, Bool, true, false, not, none,
  some, Result, ok, arith, ◌⊎◌, inl, inr, Bool-cases,
}
use opencost_ai.Text.{Bytes, text, beq}
use opencost_ai.Text.Laws.{beq_iff}
use opencost_ai.Text.Trim.Laws.{trim_right_idem}
use opencost_ai.Text.Trim.{trim_right, trim_left}
use opencost_ai.Bridge.Client.{
  Url, Client, NewError, new, slash, request_to, stream_request, ClientOption, with_http_client,
  with_user_agent, apply_option, apply_options, fresh_client, guarded,
}

-- A client that New made.
pub record IsBase (u : Url) (c : Client) (buf : Bytes) : Type 0 where
  pub no_redirects : (c.hc.refuses_redirects ≡ true) × (c.stream_hc.refuses_redirects ≡ true)
  pub scheme : (c.base_url.scheme ≡ text "http") ⊎ (c.base_url.scheme ≡ text "https")
  pub host : c.base_url.host ≢ []
  pub path : c.base_url.path ≡ trim_right slash u.path
  pub trimmed : trim_right slash c.base_url.path ≡ c.base_url.path
  pub chat_path :
      (request_to c (text "POST") (text "/api/chat") (some buf)).url.path
      ≡ c.base_url.path ++ text "/api/chat"
  pub same_url :
      (stream_request c buf).url ≡ (request_to c (text "POST") (text "/api/chat") (some buf)).url

second : (a b : Bool) → a ≡ false → (not a && not b) ≡ false → b ≡ true
second true b h k = cc
second false true h k = refl
second false false h k = cc

filled : {b : Bool} → b ≡ true → b ≡ false → ⊥
filled h k = cc

apply_options-base_url :
    (os : List ClientOption) (c : Client) → (apply_options os c).base_url ≡ c.base_url
unfolding apply_options apply_option
apply_options-base_url [] c = refl
apply_options-base_url (with_http_client none ∷ os) c = apply_options-base_url os c
apply_options-base_url (with_http_client (some hc) ∷ os) c = apply_options-base_url os _
apply_options-base_url (with_user_agent ua ∷ os) c = apply_options-base_url os _

-- What `New` makes of a URL that passes its checks.
abbrev pub built : List ClientOption → Url → Client
built opts u = guarded (apply_options opts (fresh_client u))

abbrev pub IsGoodUrl : Url → Type 0
IsGoodUrl u =
    (not (beq u.scheme (text "http")) && not (beq u.scheme (text "https")) ≡ false)
    × (is_nil u.host ≡ false)

pub new-built :
    (opts : List ClientOption) (u : Url) → IsGoodUrl u → new opts (ok u) ≡ ok (built opts u)
unfolding new
new-built opts u (s, n) = rw (new, s, n) refl

pub new-IsGoodUrl :
    (opts : List ClientOption) (u : Url) (c : Client) → new opts (ok u) ≡ ok c → IsGoodUrl u
unfolding new
new-IsGoodUrl opts u c h =
    elim (Bool-cases (not (beq u.scheme (text "http")) && not (beq u.scheme (text "https")))) [
      | inl s ↦ absurd (ground (arith, s, h))
      | inr s ↦ elim (Bool-cases (is_nil u.host)) [
        | inl n ↦ absurd (ground (arith, s, n, h))
        | inr n ↦ (s, n)
      ]
    ]

IsBase-built :
    (opts : List ClientOption) (u : Url) (buf : Bytes) → IsGoodUrl u → IsBase u (built opts u) buf
unfolding request_to stream_request text trim_left
IsBase-built opts u buf (schemes, host) =
    let e = apply_options-base_url opts (fresh_client u) in
    record {
      no_redirects = (refl, refl);
      scheme =
          let same = ap (λ v. v.scheme) e in
          elim (Bool-cases (beq u.scheme (text "http"))) [
            | inl k ↦ inl (same ∙ (beq_iff u.scheme (text "http")).0 k)
            | inr k ↦ inr (same ∙ (beq_iff u.scheme (text "https")).0 (second _ _ k schemes))
          ];
      host = λ h. absurd (filled (ap is_nil h) (ap (λ v. is_nil v.host) e ∙ host));
      path = ap (λ v. v.path) e;
      trimmed =
          ap (λ v. trim_right slash v.path) e
          ∙ trim_right_idem slash u.path
          ∙ sym (ap (λ v. v.path) e);
      chat_path = refl;
      same_url = refl;
    }

abbrev IsSame : Result NewError Client → Result NewError Client → Type 0
IsSame x y = x ≡ y

value_of : {a b : Client} → IsSame (ok a) (ok b) → a ≡ b
value_of h = cc

-- `New` accepts only http and https URLs with a host, drops the slashes at the end of the path, and
-- both ways to chat go to the same URL, the base path followed by /api/chat. Whatever the options,
-- neither of its HTTP clients follows a redirect.
pub new-IsBase :
    (opts : List ClientOption) (u : Url) (c : Client) (buf : Bytes)
    → new opts (ok u) ≡ ok c
    → IsBase u c buf
new-IsBase opts u c buf h =
    let good = new-IsGoodUrl opts u c h in
    rw⁻¹ (value_of (sym (new-built opts u good) ∙ h)) (IsBase-built opts u buf good)

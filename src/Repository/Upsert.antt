-- ===== src/Repository/Upsert.antt =====
-- The upsert of access tokens (`Set` and `Get`, internal/repository/postgres/access_token_repo.go).
use text.Mathlib.Text.{◌==◌ as str_eq}
use text.Mathlib.TextEquality.{eq_iff}
use tax_module.Prelude.{
  ℕ, ◌+◌, String, none, some, List, [], ◌∷◌, ◌≡◌, refl, ap, ◌∙◌, false, ◌==◌, Bool-cases, inl, inr,
  arith, if◌then◌else◌,
}
use tax_module.Domain.Token.{AccessToken}
use tax_module.Store.{Env, World, exec, time_now, uuid_new}
use tax_module.Repository.Reliable.{IsReliable}
use tax_module.Repository.Tokens.{
  find_token, replace_token, upsert_rows, upsert_token, set_token_row, token_id,
}

-- A token is there with what its users read of it.
pub record Holds (p : String) (new : AccessToken) (ts : List AccessToken) : Type 0 where
  pub token : AccessToken
  pub found : find_token p ts ≡ some token
  pub same_access : token.access_token ≡ new.access_token
  pub same_type : token.token_type ≡ new.token_type
  pub same_expiry : token.expires_at ≡ new.expires_at

Holds-cons :
    {p : String} {new t : AccessToken} {ts : List AccessToken}
    → str_eq t.provider p ≡ false
    → Holds p new ts
    → Holds p new (t ∷ ts)
Holds-cons other h = record {
  token = h.token;
  found = ground (arith, other, h.found);
  same_access = h.same_access;
  same_type = h.same_type;
  same_expiry = h.same_expiry;
}

upsert-Holds :
    (new : AccessToken) (ts : List AccessToken) → Holds new.provider new (upsert_rows new ts)
unfolding upsert_rows
upsert-Holds new [] = record {
  token = new;
  found = ground (arith, (eq_iff new.provider new.provider).1 refl);
  same_access = refl;
  same_type = refl;
  same_expiry = refl;
}
upsert-Holds new (t ∷ ts) = elim (Bool-cases (str_eq t.provider new.provider)) [
  | inl here ↦ rw here (record {
    token = replace_token new t;
    found = ground (arith, here);
    same_access = refl;
    same_type = refl;
    same_expiry = refl;
  })
  | inr further ↦ rw further (Holds-cons further (upsert-Holds new ts))
]

find_token-upsert :
    (new : AccessToken) (q : String) (ts : List AccessToken)
    → str_eq new.provider q ≡ false
    → find_token q (upsert_rows new ts) ≡ find_token q ts
unfolding upsert_rows
find_token-upsert new q [] h = ground arith
find_token-upsert new q (t ∷ ts) h = elim (Bool-cases (str_eq t.provider new.provider)) [
  | inl here ↦
      let other : str_eq t.provider q ≡ false =
        ap (λ p. str_eq p q) ((eq_iff t.provider new.provider).0 here) ∙ h in
      ground (arith, here, other)
  | inr further ↦ ground (arith, further, find_token-upsert new q ts h)
]

token_id-db : (env : Env) (n : ℕ) (w : World) → (token_id env n w).1.db ≡ w.db
unfolding token_id uuid_new
token_id-db env n w = ground arith

-- While the database works, `Set` answers nil; the token is then found under its provider with its
-- text, its type and its expiry, whether the provider had a token before or not; and the token
-- of every other provider is the one that it was.
pub set_token_row-Holds :
    (env : Env) (reliable : IsReliable env) (t : AccessToken) (w : World)
    → let (failure, w') = set_token_row env t w in
      (failure ≡ none)
      × Holds t.provider t w'.db.access_tokens
      × ((q : String)
          → str_eq t.provider q ≡ false
          → find_token q w'.db.access_tokens ≡ find_token q w.db.access_tokens)
unfolding set_token_row exec time_now upsert_token
set_token_row-Holds env reliable t w =
    let (i, w₁) = token_id env t.id w in
    let now = env.now w₁.tick in
    let row : AccessToken = record t {
      id = i;
      updated_at = now;
      created_at = if t.created_at == 0 then now else t.created_at;
    } in
    let same = ap (λ d. d.access_tokens) (token_id-db env t.id w) in
    let h = upsert-Holds row w₁.db.access_tokens in
    rw (reliable.no_error (w₁.tick + 1), exec)
      (
        refl,
        record {
          token = h.token;
          found = h.found;
          same_access = h.same_access;
          same_type = h.same_type;
          same_expiry = h.same_expiry;
        },
        λ q other. find_token-upsert row q w₁.db.access_tokens other ∙ ap (find_token q) same,
      )

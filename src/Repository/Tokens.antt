-- ===== src/Repository/Tokens.antt =====
-- `AccessTokenRepo` (internal/repository/postgres/access_token_repo.go).
use Prim.Native.String.{◌++◌ as ◌+++◌}
use text.Mathlib.Text.{◌==◌ as str_eq}
use tax_module.Prelude.{ℕ, String, Option, none, some, List, [], ◌∷◌, ◌==◌, if◌then◌else◌}
use tax_module.Domain.Token.{AccessToken}
use tax_module.Domain.Errors.{Error}
use tax_module.Store.{Result, Database, Env, M, pure, ◌>>=◌, time_now, uuid_new, exec, query_row}
use tax_module.Repository.Invoices.{check_inserted, check_row}

-- `WHERE provider = $1`
abbrev pub find_token : String → List AccessToken → Option AccessToken
find_token p [] = none
find_token p (t ∷ ts) = if str_eq t.provider p then some t else find_token p ts

-- `ON CONFLICT (provider) DO UPDATE SET …`: the old row keeps its id and the time of its creation.
abbrev pub replace_token : AccessToken → AccessToken → AccessToken
replace_token new old = record new {
  id = old.id;
  provider = old.provider;
  created_at = old.created_at;
}

unfoldable pub upsert_rows : AccessToken → List AccessToken → List AccessToken
upsert_rows new [] = new ∷ []
upsert_rows new (t ∷ ts) =
    if str_eq t.provider new.provider then replace_token new t ∷ ts else t ∷ upsert_rows new ts

unfoldable pub upsert_token : AccessToken → Database → Database × ℕ
unfolding upsert_rows
upsert_token new db = (record db { access_tokens = upsert_rows new db.access_tokens }, 1)

module _ (env : Env) where
  unfoldable pub get_token_row : String → M (Result AccessToken)
  unfolding query_row
  get_token_row provider = do
    row ← query_row env (λ db. find_token provider db.access_tokens)
    pure (
        check_row "failed to get access token"
          (◌+++◌ "access token not found for provider: " provider) row)

  -- A nil id gets a new uuid.
  unfoldable pub token_id : ℕ → M ℕ
  token_id id = if id == 0 then uuid_new env else pure id

  unfoldable pub set_token_row : AccessToken → M (Option Error)
  unfolding exec time_now token_id upsert_token
  set_token_row token = do
    id ← token_id token.id
    now ← time_now env
    tag ← exec env (
        upsert_token (record token {
          id = id;
          updated_at = now;
          created_at = if token.created_at == 0 then now else token.created_at;
        }))
    pure (check_inserted "failed to set access token" tag)

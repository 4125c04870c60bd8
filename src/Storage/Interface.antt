-- ===== src/Storage/Interface.antt =====
-- internal/storage/storage.go: the interface `storerLoader` of the two implementations, and the
-- wrapper `LoadByUser` around it.
use urlshortner.Prelude.{ℕ, Str, Exec, Option, List, [], ◌∷◌, ◌++◌}
use urlshortner.Storage.Errors.{Error}

pub record Pair : Type 0 where
  pub short_url : Str
  pub original_url : Str

abbrev pub Pairs : Type 0
Pairs = List Pair

-- The methods over a state `S`; each returns Go's pair of a value and an error, or panics. The
-- closure of `load_urls_by_user` writes to a captured slice, which is passed through.
pub record StorerLoader (S : Type 0) : Type 0 where
  pub load_url : Str → Exec S (Str × Option Error)
  pub load_urls_by_user : (Str → Str → Pairs → Pairs) → Str → Pairs → Exec S (Pairs × Option Error)
  pub store_url : Str → Str → Str → Exec S (Option Error)
  pub load_user : Str → Exec S (Str × Option Error)
  pub store_session : Str → Str → Exec S (Option Error)
  pub count_users : Exec S (ℕ × Option Error)
  pub count_urls : Exec S (ℕ × Option Error)
  pub flush : Exec S (Option Error)
  pub delete_urls : Str → List Str → Exec S (Option Error)

-- The closure `f` of `LoadByUser`.
unfoldable pub append_pair : (Str → Str) → Str → Str → Pairs → Pairs
append_pair make_url id url p = p ++ record { short_url = make_url id; original_url = url } ∷ []

unfoldable pub load_by_user :
    {S : Type 0} → StorerLoader S → (Str → Str) → Str → Exec S (Pairs × Option Error)
load_by_user st make_url user_id = st.load_urls_by_user (append_pair make_url) user_id []

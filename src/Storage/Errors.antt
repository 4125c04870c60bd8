-- ===== src/Storage/Errors.antt =====
-- internal/storage/storageerrors, and Go's `error` values as the program builds and tests them.
use urlshortner.Prelude.{Str, str, Bool, true, false, Option, none, some, ◌++◌}

pub data Error : Type 0 where
  -- `ErrConflict` and `ErrURLGone`: values of their own, told apart by identity.
  err_conflict err_url_gone : Error
  -- `errors.New`, and `fmt.Errorf` where it wraps no error.
  message : Str → Error
  -- `fmt.Errorf` with `%w`.
  wrapped : Str → Error → Error

-- `err.Error()`.
unfoldable pub error_text : Error → Str
error_text err_conflict = str "URL has already been shortened"
error_text err_url_gone = str "URL with this id is deleted"
error_text (message s) = s
error_text (wrapped s e) = s ++ error_text e

-- `errors.Is(err, ErrConflict)`.
unfoldable pub is_conflict : Option Error → Bool
is_conflict none = false
is_conflict (some err_conflict) = true
is_conflict (some (wrapped s e)) = is_conflict (some e)
is_conflict (some _) = false

-- `errors.Is(err, ErrURLGone)`.
unfoldable pub is_url_gone : Option Error → Bool
is_url_gone none = false
is_url_gone (some err_url_gone) = true
is_url_gone (some (wrapped s e)) = is_url_gone (some e)
is_url_gone (some _) = false

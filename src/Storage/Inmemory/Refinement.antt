-- ===== src/Storage/Inmemory/Refinement.antt =====
-- Sequences of calls of the in-memory storage, beside the table.
use urlshortner.Prelude.{
  returned, Exec, List, [], ◌∷◌, ◌≡◌, refl, Str, arith, ap, sym, ◌∙◌, bind-returned, ◌>>=◌, pure,
}
use urlshortner.Storage.Inmemory.{Ims, load_url, store_url, delete_urls}
use urlshortner.Storage.Inmemory.Invariant.{IsWf, store_url-IsWf, delete_urls_total}
use urlshortner.Storage.Inmemory.Table.{
  Table, Command, load_cmd, store_cmd, delete_cmd, Reply, found, done, answer, store_error, reply,
  next, entry, delete_in,
}
use urlshortner.Storage.Inmemory.Lookup.{load_url-entry, store_url-result, entry-store_url}
use urlshortner.Storage.Inmemory.Delete.{entry-delete_urls}

-- A call of the storage.
unfoldable pub call : Command → Exec Ims Reply
call (load_cmd id) = do r ← load_url id; pure (found r)
call (store_cmd id url user_id) = do e ← store_url id url user_id; pure (done e)
call (delete_cmd user_id ids) = do e ← delete_urls user_id ids; pure (done e)

unfoldable pub calls : List Command → Exec Ims (List Reply)
calls [] = pure []
calls (c ∷ cs) = do r ← call c; rs ← calls cs; pure (r ∷ rs)

-- The same over the table.
unfoldable pub replies : Table → List Command → List Reply
replies t [] = []
replies t (c ∷ cs) = reply t c ∷ replies (next t c) cs

-- The table has the records of the storage.
abbrev pub Shows : Ims → Table → Type 0
Shows s t = (id : Str) → entry s id ≡ t id

call-Shows :
    (c : Command) (s : Ims) (t : Table)
    → IsWf s
    → Shows s t
    → ((call c s).0 ≡ returned (reply t c)) × IsWf (call c s).1 × Shows (call c s).1 (next t c)
unfolding call
call-Shows (load_cmd id) s t w h =
    rw (load_url-entry id s w) (ap (λ e. returned (found (answer id e))) (h id), w, h)
call-Shows (store_cmd id url user_id) s t w h =
    rw (bind-returned (store_url id url user_id) _ _ s (store_url-result id url user_id s w)) (
      ap (λ e. returned (done (store_error e))) (h id),
      store_url-IsWf id url user_id s w,
      λ j. entry-store_url id url user_id j s w ∙ ground (arith, h j),
    )
call-Shows (delete_cmd user_id ids) s t w h =
    let (m', ran, w') = delete_urls_total user_id ids s w in
    let shown : Shows (record s { entries = m' }) (next t (delete_cmd user_id ids)) = λ j.
      ap (λ r. entry r.1 j) (sym ran)
      ∙ entry-delete_urls user_id j ids s w
      ∙ ap (delete_in user_id ids j) (h j) in
    rw ran (refl, w', shown)

-- Whatever the sequence of calls, a well-formed storage gives the replies of the table that it
-- shows: no call panics, and no order and no representation can be seen through them.
pub calls-replies :
    (cs : List Command) (s : Ims) (t : Table)
    → IsWf s
    → Shows s t
    → (calls cs s).0 ≡ returned (replies t cs)
unfolding calls replies
calls-replies [] s t w h = refl
calls-replies (c ∷ cs) s t w h =
    let (answered, w', h') = call-Shows c s t w h in
    let later = calls-replies cs (call c s).1 (next t c) w' h' in rw (answered, later) refl

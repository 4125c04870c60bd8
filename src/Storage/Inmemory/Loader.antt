-- ===== src/Storage/Inmemory/Loader.antt =====
-- The in-memory storage as a `storerLoader`. Its state is the storage with the file system.
use urlshortner.Prelude.{Str, Exec, List}
use urlshortner.Storage.Filestorage.{Disk}
use urlshortner.Storage.Inmemory.{
  Ims, load_url, store_url, load_urls_by_user, load_user, store_session, count_users, count_urls,
  delete_urls, flush,
}
use urlshortner.Storage.Interface.{StorerLoader}

-- A method that touches the storage alone.
abbrev pub on_storage : {A : Type 0} → Exec Ims A → Exec (Ims × Disk) A
on_storage m (s, d) = ((m s).0, ((m s).1, d))

abbrev pub ims_loader : (List Str → Str) → StorerLoader (Ims × Disk)
ims_loader encode_record = record {
  load_url = λ id. on_storage (load_url id);
  load_urls_by_user = λ add user_id acc. on_storage (load_urls_by_user add user_id acc);
  store_url = λ id url user_id. on_storage (store_url id url user_id);
  load_user = λ session. on_storage (load_user session);
  store_session = λ id session. on_storage (store_session id session);
  count_users = on_storage count_users;
  count_urls = on_storage count_urls;
  flush = flush encode_record;
  delete_urls = λ user_id ids. on_storage (delete_urls user_id ids);
}

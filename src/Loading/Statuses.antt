-- ===== src/Loading/Statuses.antt =====
-- Theorems about `loadDocuments` and `everyStatusRead`.
use openwrt_apn_autoconfig.Prelude.{
  All-universal, ap, String, Bool, true, List, [], ◌∷◌, all, All, Dict, lookup, insert, some, ◌≡◌,
  refl, arith, lookup-insert, All-mono,
}
use openwrt_apn_autoconfig.Json.{
  Value, str, is_string, to_string, undefined, null, bool, num, arr, obj,
}
use openwrt_apn_autoconfig.Documents.{Documents, target_ids}
use openwrt_apn_autoconfig.Loading.{
  Ask, insert_all, load_target_status, load_documents, was_read, every_status_read,
}
use mathlib.Core.List.{Memᴰ}
use text.Mathlib.TextEquality.{eq_iff}

module _ {V : Type 0} (f : Value → V) where
  -- An entry that is what `f` makes of its key stays so.
  insert_all-kept :
      (k : String) (v : V) (ids : List Value) (m : Dict V)
      → lookup k m ≡ some v
      → All (λ id. to_string id ≡ k → f id ≡ v) ids
      → lookup k (insert_all f ids m) ≡ some v
  unfolding insert_all
  insert_all-kept k v [] m e _ = e
  insert_all-kept k v (id ∷ ids) m e (h, hs) =
      insert_all-kept k v ids (insert (to_string id) (f id) m)
        (ground (arith, lookup-insert (to_string id) k (f id) m, eq_iff (to_string id) k)) hs

  pub insert_all-found :
      (x : Value) (v : V) (ids : List Value) (m : Dict V)
      → Memᴰ x ids
      → f x ≡ v
      → All (λ id. to_string id ≡ to_string x → f id ≡ v) ids
      → lookup (to_string x) (insert_all f ids m) ≡ some v
  unfolding insert_all
  insert_all-found x v [] m k e _ = elim k [ ]
  insert_all-found x v (id ∷ ids) m (Memᴰ.head same) e (h, hs) =
      insert_all-kept (to_string x) v ids (insert (to_string id) (f id) m)
        (ground (
          arith,
          lookup-insert (to_string id) (to_string x) (f id) m,
          eq_iff (to_string id) (to_string x),
          ap to_string same,
        ))
        hs
  insert_all-found x v (id ∷ ids) m (Memᴰ.tail k) e (h, hs) =
      insert_all-found x v ids (insert (to_string id) (f id) m) k e hs

all-true :
    (p : Value → Bool) (ids : List Value)
    → ((x : Value) → Memᴰ x ids → p x ≡ true)
    → all p ids ≡ true
all-true p [] h = refl
all-true p (x ∷ xs) h =
    let here = h x (Memᴰ.head refl) in
    let rest = all-true p xs (λ y m. h y (Memᴰ.tail m)) in ground arith

was_read_found :
    (documents : Documents) (k : String)
    → lookup k documents.status_read ≡ some true
    → was_read documents k ≡ true
was_read_found documents k h = rw (h, was_read) refl

-- After a load every connection that the router lists has been read, whatever the calls were answered, errors
-- included.
pub load_documents-every_status_read :
    (ask : Ask) (held : Documents) → every_status_read (load_documents ask held) ≡ true
unfolding every_status_read load_documents target_ids
load_documents-every_status_read ask held =
    let documents = load_documents ask held in
    all-true (λ id. was_read documents (to_string id)) (target_ids documents)
      (λ x m. was_read_found documents (to_string x) (
        insert_all-found (λ _. true) x true (target_ids documents) [] m refl
          (All-universal _ (target_ids documents) (λ _ _. refl))))

same_text :
    (id : String) {V : Type 0} (f : Value → V) (v : Value)
    → is_string v ≡ true
    → to_string v ≡ id
    → f v ≡ f (str id)
unfolding to_string
same_text id f (str s) h e = ap (λ t. f (str t)) e
same_text id f undefined h e = cc
same_text id f null h e = cc
same_text id f (bool b) h e = cc
same_text id f (num n) h e = cc
same_text id f (arr vs) h e = cc
same_text id f (obj fs) h e = cc

-- When the identifiers of the connections are texts, then after a load the status of each listed connection is
-- the answer to the question for that connection, or its error.
pub load_documents-status :
    (ask : Ask) (held : Documents) (id : String)
    → All (λ v. is_string v ≡ true) (target_ids (load_documents ask held))
    → Memᴰ (str id) (target_ids (load_documents ask held))
    → lookup id (load_documents ask held).statuses ≡ some (load_target_status ask (str id))
unfolding load_documents target_ids to_string
load_documents-status ask held id texts m =
    let listed = target_ids (load_documents ask held) in
    insert_all-found (load_target_status ask) (str id) (load_target_status ask (str id)) listed [] m
      refl (All-mono listed (λ v text e. same_text id (load_target_status ask) v text e) texts)

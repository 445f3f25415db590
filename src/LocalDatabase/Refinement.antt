-- ===== src/LocalDatabase/Refinement.antt =====
-- The database in memory (cmd/convertor/testingresources/local_db.go) against a table of queues: each
-- key has the entries that were created under it and not deleted, the oldest first.
use accelerated_container_im.Base.{
  ◌≡◌, refl, sym, inl, inr, Bool, true, false, ◌&&◌, Bool-cases, Option, none, some, List, [], ◌∷◌,
  ◌++◌, ◌==◌, string_eq, if◌then◌else◌, arith,
}
use accelerated_container_im.Host.Registry.{LayerEntry}
use accelerated_container_im.LocalDatabase.{
  LayerKey, LocalDb, is_layer, first_where, all_where, without_first, create_layer_record,
  layer_record_for_repo, delete_layer_record,
}

-- What a client asks of the layers.
pub data Request : Type 0 where
  create_one : LayerEntry → Request
  look_up delete_one : LayerKey → Request

abbrev pub Table : Type 0
Table = LayerKey → List LayerEntry

abbrev pub key_of : LayerEntry → LayerKey
key_of entry = record {
  in_host = entry.host;
  in_repository = entry.repository;
  of_chain = entry.chain_id;
}

unfoldable pub same_key : LayerKey → LayerKey → Bool
unfolding string_eq
same_key j k =
    j.in_host == k.in_host && (j.of_chain == k.of_chain && j.in_repository == k.in_repository)

abbrev pub oldest : List LayerEntry → Option LayerEntry
oldest [] = none
oldest (x ∷ _) = some x

abbrev pub without_oldest : List LayerEntry → List LayerEntry
without_oldest [] = []
without_oldest (_ ∷ xs) = xs

-- A request to the table: the table behind it, and the answer.
unfoldable pub on_table : Table → Request → Table × Option LayerEntry
unfolding same_key
on_table t (create_one entry) =
    ((λ k. if same_key k (key_of entry) then t k ++ (entry ∷ []) else t k), none)
on_table t (look_up key) = (t, oldest (t key))
on_table t (delete_one key) = ((λ k. if same_key k key then without_oldest (t k) else t k), none)

-- A request to the database.
unfoldable pub on_database : LocalDb → Request → LocalDb × Option LayerEntry
unfolding create_layer_record layer_record_for_repo delete_layer_record
on_database db (create_one entry) = (create_layer_record entry db, none)
on_database db (look_up key) = (db, layer_record_for_repo key db)
on_database db (delete_one key) = (delete_layer_record key db, none)

module _ {ℓ} {S : Type ℓ} (step : S → Request → S × Option LayerEntry) where
  -- The answers to a list of requests.
  unfoldable pub answers : S → List Request → List (Option LayerEntry)
  answers s [] = []
  answers s (r ∷ rs) = (step s r).1 ∷ answers (step s r).0 rs

-- The table that a database stands for.
unfoldable pub table_of : LocalDb → Table
unfolding all_where is_layer
table_of db key = all_where (is_layer key) db.layer_records

all_where-append :
    (p : LayerEntry → Bool) (xs : List LayerEntry) (e : LayerEntry)
    → all_where p (xs ++ (e ∷ [])) ≡ (if p e then all_where p xs ++ (e ∷ []) else all_where p xs)
unfolding all_where
all_where-append p [] e = ground arith
all_where-append p (x ∷ xs) e = ground (arith, all_where-append p xs e)

oldest-all_where :
    (p : LayerEntry → Bool) (xs : List LayerEntry) → oldest (all_where p xs) ≡ first_where p xs
unfolding all_where first_where
oldest-all_where p [] = refl
oldest-all_where p (x ∷ xs) = ground (arith, oldest-all_where p xs)

is_layer-same_key : (k : LayerKey) (e : LayerEntry) → is_layer k e ≡ same_key k (key_of e)
unfolding is_layer same_key
is_layer-same_key k e = ground arith

without_own :
    (p : LayerEntry → Bool) (xs : List LayerEntry)
    → all_where p (without_first p xs) ≡ without_oldest (all_where p xs)
unfolding all_where without_first
without_own p [] = refl
without_own p (x ∷ xs) = ground (arith, without_own p xs)

without_other :
    (p q : LayerEntry → Bool) (xs : List LayerEntry)
    → ((x : LayerEntry) → q x ≡ true → p x ≡ false)
    → all_where p (without_first q xs) ≡ all_where p xs
unfolding all_where without_first
without_other p q [] k = refl
without_other p q (x ∷ xs) k = ground (arith, k x, without_other p q xs k)

same_key-eq : (k j : LayerKey) → same_key k j ≡ true → k ≡ j
unfolding same_key
same_key-eq k j e =
    let h : k.in_host ≡ j.in_host = ground (arith, e) in
    let r : k.in_repository ≡ j.in_repository = ground (arith, e) in
    let c : k.of_chain ≡ j.of_chain = ground (arith, e) in
    λ i. record { in_host = h i; in_repository = r i; of_chain = c i }

different_key :
    (k j : LayerKey) (x : LayerEntry)
    → same_key k j ≡ false
    → is_layer j x ≡ true
    → is_layer k x ≡ false
unfolding same_key is_layer
different_key k j x d e = ground (arith, d, e)

-- A deletion takes the oldest entry of its key, and none of another.
deleted :
    (k j : LayerKey) (xs : List LayerEntry)
    → all_where (is_layer k) (without_first (is_layer j) xs) ≡ (
        if same_key k j
        then without_oldest (all_where (is_layer k) xs)
        else all_where (is_layer k) xs)
deleted k j xs = elim (Bool-cases (same_key k j)) [
  | inl e ↦ rw e (rw (same_key-eq k j e) (without_own (is_layer j) xs))
  | inr e ↦ rw e (without_other (is_layer k) (is_layer j) xs (λ x y. different_key k j x e y))
]

-- The database's step is the table's: the same answer, and a database that stands for the table.
on_database-on_table :
    (db : LocalDb) (r : Request)
    → (table_of (on_database db r).0, (on_database db r).1) ≡ on_table (table_of db) r
unfolding table_of on_database on_table create_layer_record layer_record_for_repo
    delete_layer_record
on_database-on_table db (create_one entry) = λ i. (λ k. created k i, none)
  where
    created :
        (k : LayerKey)
        → all_where (is_layer k) (db.layer_records ++ (entry ∷ [])) ≡ (
            if same_key k (key_of entry)
            then all_where (is_layer k) db.layer_records ++ (entry ∷ [])
            else all_where (is_layer k) db.layer_records)
    created k =
        rw⁻¹ (is_layer-same_key k entry) (all_where-append (is_layer k) db.layer_records entry)
on_database-on_table db (look_up key) = λ i. (
  λ k. all_where (is_layer k) db.layer_records,
  sym (oldest-all_where (is_layer key) db.layer_records) i,
)
on_database-on_table db (delete_one key) = λ i. (λ k. deleted k key db.layer_records i, none)

-- Whatever is created, looked up and deleted, in whichever order, the database answers as a table does
-- in which each key of a layer has a queue of its own, so that a key need not be unique: a lookup gives
-- the oldest entry of the key, and a deletion removes it and no other.
pub answers-on_table :
    (requests : List Request) (db : LocalDb)
    → answers on_database db requests ≡ answers on_table (table_of db) requests
unfolding answers
answers-on_table [] db = refl
answers-on_table (r ∷ requests) db =
    cc (on_database-on_table db r, answers-on_table requests (on_database db r).0)

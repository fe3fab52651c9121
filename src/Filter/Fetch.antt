-- ===== src/Filter/Fetch.antt =====
-- internal/filter/lists.go: what fetching a list leaves.
use irongrid_dns.Prelude.{
  ℕ, ◌≡◌, refl, sym, ap, ◌∙◌, inl, inr, [], Option, none, some, arith, Bool-cases, Option-cases,
}
use irongrid_dns.Bytes.{GoString, is_empty, ascii, str_eq, str_eq_iff}
use irongrid_dns.Text.{cut_prefix}
use irongrid_dns.Shards.Table.{Table, lookup, insert, lookup-insert, lookup-insert_self}
use irongrid_dns.Filter.Lists.{
  StoredList, ListManager, FetchError, Outcome, store_fetched, fetch_one, persist, is_file_name,
}

abbrev content_of : Option StoredList → Option (Option GoString)
content_of none = none
content_of (some stored) = some stored.content

abbrev error_of : Option StoredList → GoString
error_of none = []
error_of (some stored) = stored.last_error

-- What a failed download leaves: the contents, the files and the rules as they were, and the error
-- at the list.
pub record Unharmed (id err : GoString) (m m' : ListManager) : Type 0 where
  pub contents : (j : GoString) → content_of (lookup j m'.store) ≡ content_of (lookup j m.store)
  pub files : m'.files ≡ m.files
  pub engine : m'.engine ≡ m.engine
  pub noted : error_of (lookup id m'.store) ≡ err

-- The ways of `FetchOne`.
module _ (read_file fetch : GoString → Outcome) (id : GoString) (now : ℕ) (m : ListManager) where
  fetch_one-ind :
      (R : ListManager × Option FetchError → Type 0)
      → R (m, some FetchError.unknown_list)
      → R (m, none)
      → ((o : Outcome) (stored : StoredList)
          → lookup id m.store ≡ some stored
          → R (store_fetched id stored o now m))
      → R (fetch_one read_file fetch id now m)
  unfolding fetch_one
  fetch_one-ind R unknown idle fetched = elim (Option-cases (lookup id m.store)) [
    | inl absent ↦ rw (fetch_one, absent) unknown
    | inr (stored, held) ↦ elim (Option-cases (cut_prefix stored.spec.url (ascii "file://"))) [
      | inr (path, local) ↦ rw (fetch_one, held, local) (fetched (read_file path) stored held)
      | inl remote ↦ elim (Bool-cases (is_empty stored.spec.url)) [
        | inl manual ↦ rw (fetch_one, held, remote, manual) idle
        | inr given ↦
            rw (fetch_one, held, remote, given) (fetched (fetch stored.spec.url) stored held)
      ]
    ]
  ]

message :
    (a b : GoString)
    → ◌≡◌ {A = Option FetchError}
        (some (FetchError.not_fetched a))
        (some (FetchError.not_fetched b))
    → a ≡ b
message a b e = ground (arith, e)

persist-error :
    (id content err : GoString) (m : ListManager)
    → ¬ ((persist id content m).1 ≡ some (FetchError.not_fetched err))
unfolding persist
persist-error id content err m = elim (Bool-cases (is_empty m.dir)) [
  | inl no_dir ↦ rw (persist, no_dir) (λ e. ground (arith, e))
  | inr dir ↦ elim (Bool-cases (is_file_name id)) [
    | inl name ↦ rw (persist, dir, name) (λ e. ground (arith, e))
    | inr bad ↦ rw (persist, dir, bad) (λ e. ground (arith, e))
  ]
]

contents-insert :
    (id j : GoString) (stored stored' : StoredList) (store : Table StoredList)
    → lookup id store ≡ some stored
    → stored'.content ≡ stored.content
    → content_of (lookup j (insert id stored' store)) ≡ content_of (lookup j store)
contents-insert id j stored stored' store held same = elim (Bool-cases (str_eq id j)) [
  | inl here ↦
      rw (lookup-insert id j stored' store, here)
        (ap (λ (c : Option GoString). some c) same
          ∙ sym (ap content_of (ap (λ x. lookup x store) (sym ((str_eq_iff id j).0 here)) ∙ held)))
  | inr other ↦ rw (lookup-insert id j stored' store, other) refl
]

-- A fetch whose download or file fails leaves the content of every list, the files and the rules
-- as they were, and notes the error at the list.
pub fetch_one-Unharmed :
    (read_file fetch : GoString → Outcome) (id err : GoString) (now : ℕ) (m : ListManager)
    → (fetch_one read_file fetch id now m).1 ≡ some (FetchError.not_fetched err)
    → Unharmed id err m (fetch_one read_file fetch id now m).0
unfolding store_fetched
fetch_one-Unharmed read_file fetch id err now m =
    fetch_one-ind read_file fetch id now m
      (λ r. r.1 ≡ some (FetchError.not_fetched err) → Unharmed id err m r.0)
      (λ e. absurd (ground (arith, e))) (λ e. absurd (ground (arith, e))) go
  where
    go :
        (o : Outcome) (stored : StoredList)
        → lookup id m.store ≡ some stored
        → (store_fetched id stored o now m).1 ≡ some (FetchError.not_fetched err)
        → Unharmed id err m (store_fetched id stored o now m).0
    go (inl content) stored held e = absurd (persist-error id content err _ e)
    go (inr msg) stored held e = record {
      contents =
          λ j. contents-insert id j stored (record stored { last_error = msg }) m.store held refl;
      files = refl;
      engine = refl;
      noted =
          ap error_of (lookup-insert_self id (record stored { last_error = msg }) m.store)
          ∙ message msg err e;
    }

-- ===== src/Filter/Lists.antt =====
-- internal/filter/lists.go: the manager of the downloaded lists. A call runs as one step; times are
-- nanoseconds; files and downloads are parameters.
use irongrid_dns.Prelude.{
  ℕ, ◌+◌, Bool, true, false, not, ◌&&◌, ◌||◌, List, [], ◌∷◌, Option, none, some, ltb, leb, ◌==◌,
  if◌then◌else◌, take, ◌⊎◌, inl, inr,
}
use irongrid_dns.Prelude.Int.{ℤ, pos, negsuc}
use irongrid_dns.Bytes.{GoString, is_empty, ascii, str_eq}
use irongrid_dns.Text.{cut_prefix, contains_any}
use irongrid_dns.Shards.Table.{Table, lookup, insert}
use irongrid_dns.Filter.Rules.{Env}
use irongrid_dns.Filter.Parse.{ParseResult}
use irongrid_dns.Filter.Engine.{Engine, reset, load_list, compile}

-- `ListSpec`
pub record ListSpec : Type 0 where
  pub id : GoString
  pub name : GoString
  pub url : GoString
  pub enabled : Bool

-- `StoredList`, with `none` for content that is nil.
pub record StoredList : Type 0 where
  pub spec : ListSpec
  pub content : Option GoString
  pub last_fetched : Option ℕ
  pub last_error : GoString
  pub rule_count : ℕ

-- `ListManager`, with the files of its directory by the ids that name them.
pub record ListManager : Type 0 where
  pub store : Table StoredList
  pub engine : Engine
  pub dir : GoString
  pub files : Table GoString
  pub auto_update : ℤ

unfoldable pub new_list_manager : Engine → GoString → Table GoString → ListManager
new_list_manager engine dir files = record {
  store = [];
  engine = engine;
  dir = dir;
  files = files;
  auto_update = pos 0;
}

unfoldable pub set_auto_update : ℤ → ListManager → ListManager
set_auto_update d m = record m { auto_update = d }

-- A specification that is new, or that replaces the one of its id.
unfoldable pub set_spec : ListSpec → Table StoredList → Table StoredList
set_spec s store = elim (lookup s.id store) [
  | none ↦
      insert s.id
        (record { spec = s; content = none; last_fetched = none; last_error = []; rule_count = 0 })
        store
  | some stored ↦ insert s.id (record stored { spec = s }) store
]

unfoldable pub set_each : List ListSpec → Table StoredList → Table StoredList
set_each [] store = store
set_each (s ∷ ss) store = set_each ss (set_spec s store)

-- `keep[id]`
unfoldable pub is_kept : List ListSpec → GoString → Bool
is_kept [] id = false
is_kept (s ∷ ss) id = str_eq s.id id || is_kept ss id

unfoldable pub drop_unkept : List ListSpec → Table StoredList → Table StoredList
drop_unkept specs [] = []
drop_unkept specs ((id, stored) ∷ store) =
    if is_kept specs id then (id, stored) ∷ drop_unkept specs store else drop_unkept specs store

-- `SetSpecs`
unfoldable pub set_specs : List ListSpec → ListManager → ListManager
set_specs specs m = record m { store = drop_unkept specs (set_each specs m.store) }

unfoldable pub specs_of : Table StoredList → List ListSpec
specs_of [] = []
specs_of ((_, stored) ∷ store) = stored.spec ∷ specs_of store

-- `string(content)`
unfoldable pub text_of : Option GoString → GoString
text_of none = []
text_of (some s) = s

-- What `ReloadAll` keeps of the result of `LoadList`.
unfoldable pub count_rules :
    GoString → StoredList → Engine × Option ParseResult → ListManager → ListManager
count_rules id stored (e, none) m = record m { engine = e }
count_rules id stored (e, some res) m = record m {
  engine = e;
  store =
      insert id (record stored { rule_count = res.domains + res.exact_domains + res.ips }) m.store;
}

-- One turn of the loop of `ReloadAll`.
unfoldable pub reload_spec : Env → ListSpec → ListManager → ListManager
reload_spec env s m = if not s.enabled then m else elim (lookup s.id m.store) [
  | none ↦ m
  | some stored ↦
      count_rules s.id stored (load_list env s.id s.name (text_of stored.content) m.engine) m
]

unfoldable pub reload_specs : Env → List ListSpec → ListManager → ListManager
reload_specs env [] m = m
reload_specs env (s ∷ ss) m = reload_specs env ss (reload_spec env s m)

-- `ReloadAll`, without the call of `OnChange`.
unfoldable pub reload_all : Env → ListManager → ListManager
reload_all env m =
    let loaded = reload_specs env (specs_of m.store) (record m { engine = reset m.engine }) in
    record loaded { engine = compile env loaded.engine }

-- What a request or a file gives: its content, or the text of an error.
abbrev pub Outcome : Type 0
Outcome = GoString ⊎ GoString

-- The bytes that `download` reads at most.
abbrev pub body_cap : ℕ
body_cap = 67108864

-- `download`, from the response on: its status and its body.
unfoldable pub download :
    (GoString → (ℕ × GoString) ⊎ GoString) → (ℕ → GoString) → GoString → Outcome
download send status_text url = elim (send url) [
  | inr err ↦ inr err
  | inl (status, body) ↦
      if status == 200 then inl (take body_cap body) else inr (status_text status)
]

-- The errors of `FetchOne`.
pub data FetchError : Type 0 where
  unknown_list : FetchError
  not_fetched : GoString → FetchError
  not_persisted : FetchError

-- The test of `persist` on the name of the file.
unfoldable pub is_file_name : GoString → Bool
is_file_name id = not (
    is_empty id || contains_any id (ascii "/\\") || str_eq id (ascii ".") || str_eq id (ascii ".."))

-- `persist`, on a disk that takes the file.
unfoldable pub persist : GoString → GoString → ListManager → ListManager × Option FetchError
persist id content m =
    if is_empty m.dir
    then (m, none)
    else if is_file_name id
    then (record m { files = insert id content m.files }, none)
    else (m, some not_persisted)

-- The end of `FetchOne`.
unfoldable pub store_fetched :
    GoString → StoredList → Outcome → ℕ → ListManager → ListManager × Option FetchError
store_fetched id stored (inr err) now m = (
  record m { store = insert id (record stored { last_error = err }) m.store },
  some (not_fetched err),
)
store_fetched id stored (inl content) now m = persist id content (record m {
  store =
      insert id (record stored { content = some content; last_fetched = some now; last_error = [] })
        m.store;
})

-- `FetchOne`, with `read_file` for `os.ReadFile` and `fetch` for `fetchRemote`.
unfoldable pub fetch_one :
    (GoString → Outcome)
    → (GoString → Outcome)
    → GoString
    → ℕ
    → ListManager
    → ListManager × Option FetchError
fetch_one read_file fetch id now m = elim (lookup id m.store) [
  | none ↦ (m, some unknown_list)
  | some stored ↦ elim (cut_prefix stored.spec.url (ascii "file://")) [
    | some path ↦ store_fetched id stored (read_file path) now m
    | none ↦
        if is_empty stored.spec.url
        then (m, none)
        else store_fetched id stored (fetch stored.spec.url) now m
  ]
]

-- `LoadCached`, on one list.
unfoldable pub restore : Table GoString → ℕ → GoString → StoredList → StoredList
restore files now id stored = elim (lookup id files) [
  | none ↦ stored
  | some content ↦ elim stored.content [
    | some _ ↦ stored
    | none ↦ record stored { content = some content; last_fetched = some now }
  ]
]

unfoldable pub restore_each : Table GoString → ℕ → Table StoredList → Table StoredList
restore_each files now [] = []
restore_each files now ((id, stored) ∷ store) =
    (id, restore files now id stored) ∷ restore_each files now store

unfoldable pub load_cached : ℕ → ListManager → ListManager
load_cached now m =
    if is_empty m.dir then m else record m { store = restore_each m.files now m.store }

-- `stored.LastFetched == nil || now.Sub(*stored.LastFetched) >= interval`
unfoldable pub is_due : ℕ → ℕ → StoredList → Bool
is_due interval now stored =
    stored.spec.enabled
    && (elim stored.last_fetched [ none ↦ true | some at ↦ leb (at + interval) now ])

unfoldable pub due_lists : ℕ → ℕ → Table StoredList → List GoString
due_lists interval now [] = []
due_lists interval now ((id, stored) ∷ store) =
    if is_due interval now stored
    then id ∷ due_lists interval now store
    else due_lists interval now store

-- The loop over the lists that are due: the manager, and whether one was fetched.
unfoldable pub fetch_due :
    (GoString → Outcome)
    → (GoString → Outcome)
    → List GoString
    → ℕ
    → ListManager
    → ListManager × Bool
fetch_due read_file fetch [] now m = (m, false)
fetch_due read_file fetch (id ∷ ids) now m =
    let (m', err) = fetch_one read_file fetch id now m in
    let (m'', changed) = fetch_due read_file fetch ids now m' in
    (m'', changed || (elim err [ none ↦ true | some _ ↦ false ]))

-- One tick of `StartRefresh`.
unfoldable pub refresh :
    Env → (GoString → Outcome) → (GoString → Outcome) → ℕ → ListManager → ListManager
refresh env read_file fetch now m = elim m.auto_update [
  | negsuc _ ↦ m
  | pos interval ↦
      let due = if ltb 0 interval then due_lists interval now m.store else [] in
      let (m', changed) = fetch_due read_file fetch due now m in
      if changed then reload_all env m' else m'
]

-- `GetContent`, with the empty text for nil.
unfoldable pub get_content : GoString → ListManager → GoString
get_content id m = elim (lookup id m.store) [ none ↦ [] | some stored ↦ text_of stored.content ]

-- ===== src/Compare.antt =====
-- ui/src/pages/playground/CompareView.tsx: the columns of the side-by-side comparison, their states, and
-- what its buttons do. A column's conversation is a useChatStream of its own (CompareColumn.tsx), which
-- is told by a command to send, stop or clear. Numbers and response formats are of types from outside;
-- the random part of a new id comes with the event.
pub mod Best
pub mod Columns
pub mod Run
mod Tests
use wai_ai.Common.{
  ℕ, suc, ◌+◌, ◌%◌, String, Bool, true, false, not, ◌&&◌, Option, none, some, List, [], ◌∷◌, ◌++◌,
  map, filter, any, find, take, drop, length, leb, ltb, member, or_default, if◌then◌else◌, ◌==◌,
}
use wai_ai.Common.Decimal.{print_nat}
use wai_ai.Common.Text.{append, truthy, trim}
use wai_ai.Controls.Segmented.{nth}
use wai_ai.Controls.Select.{Choice}

abbrev pub min_columns : ℕ
min_columns = 2

abbrev pub max_columns : ℕ
max_columns = 4

-- `CompareColumnConfig`
pub record Column (Num : Type 0) : Type 0 where
  pub id : String
  pub model : String
  pub temperature : Num
  pub max_tokens : Num
  pub params_open : Bool

-- The part of `CompareColumnStatus` that the buttons read.
pub record ColumnStatus : Type 0 where
  pub is_streaming : Bool
  pub error : Option String

-- The props of a render: the shared settings, the options, whether they are synced, and whether the
-- sending is blocked.
pub record Props (Num Format : Type 0) : Type 0 where
  pub options : List Choice
  pub system_prompt : String
  pub temperature : Num
  pub max_tokens : Num
  pub stream : Bool
  pub api_key : String
  pub response_format : Option Format
  pub synced : Bool
  pub blocked_reason : Option String

-- `ChatParams`
pub record SendParams (Num Format : Type 0) : Type 0 where
  pub model : String
  pub system_prompt : String
  pub temperature : Num
  pub max_tokens : Num
  pub stream : Bool
  pub api_key : String
  pub response_format : Option Format

-- The states of the view, and the module's `columnSeq`.
pub record Compare (Num : Type 0) : Type 0 where
  pub columns : List (Column Num)
  pub statuses : List (String × ColumnStatus)
  pub draft : String
  pub column_seq : ℕ

-- What a column is told, and what the page is told of the sync toggle.
pub data Command (Num Format : Type 0) : Type 0 where
  send : String → String → SendParams Num Format → Command Num Format
  stop : String → Command Num Format
  clear : String → Command Num Format
  sync_change : Bool → Command Num Format

-- `Partial<CompareColumnConfig>`, as the fields of a column send it.
pub data Patch (Num : Type 0) : Type 0 where
  set_model : String → Patch Num
  set_temperature set_max_tokens : Num → Patch Num
  set_params_open : Bool → Patch Num

pub data CompareEvent (Num : Type 0) : Type 0 where
  add_column : String → CompareEvent Num
  remove_column : String → CompareEvent Num
  duplicate_column : String → String → CompareEvent Num
  change_column : String → Patch Num → CompareEvent Num
  toggle_sync : Bool → CompareEvent Num
  report_status : String → ColumnStatus → CompareEvent Num
  type_draft : String → CompareEvent Num
  run_all stop_all clear_all : CompareEvent Num

-- `statuses[id]`
unfoldable pub status_of : String → List (String × ColumnStatus) → Option ColumnStatus
status_of id [] = none
status_of id ((k, s) ∷ rest) = if k == id then some s else status_of id rest

-- `delete next[id]`
unfoldable pub without_status : String → List (String × ColumnStatus) → List (String × ColumnStatus)
without_status id statuses = filter (λ s. not (s.0 == id)) statuses

-- `newColumnId`, of a sequence number and a random text
unfoldable pub column_id : ℕ → String → String
column_id n random = append "col-" (append (print_nat n) (append "-" random))

module _ {Num : Type 0} where
  -- The position of a column, from 0.
  unfoldable pub index_of : String → List (Column Num) → Option ℕ
  index_of id [] = none
  index_of id (c ∷ cs) = elim (c.id == id) [
    | true ↦ some 0
    | false ↦ elim (index_of id cs) [ none ↦ none | some i ↦ some (suc i) ]
  ]

  -- `{ ...c, ...patch }`
  unfoldable pub patched : Patch Num → Column Num → Column Num
  patched (set_model m) c = record c { model = m }
  patched (set_temperature t) c = record c { temperature = t }
  patched (set_max_tokens n) c = record c { max_tokens = n }
  patched (set_params_open o) c = record c { params_open = o }

  -- `onChange`
  unfoldable pub patch_column : String → Patch Num → List (Column Num) → List (Column Num)
  unfolding patched
  patch_column id p columns = map (λ c. if c.id == id then patched p c else c) columns

  -- `[...cols.slice(0, idx + 1), copy, ...cols.slice(idx + 1)]`
  unfoldable pub insert_after : ℕ → Column Num → List (Column Num) → List (Column Num)
  insert_after i copy columns = take (suc i) columns ++ copy ∷ drop (suc i) columns

  unfoldable pub any_streaming : List (String × ColumnStatus) → List (Column Num) → Bool
  unfolding status_of
  any_streaming statuses columns =
      any (λ c. elim (status_of c.id statuses) [ none ↦ false | some s ↦ s.is_streaming ]) columns

module _ {Num Format : Type 0} (p : Props Num Format) where
  -- The value of an option, or '' where there is none.
  unfoldable pub option_value : Option Choice → String
  option_value none = ""
  option_value (some o) = o.value

  -- `resolveModel`
  unfoldable pub resolve_model : Column Num → ℕ → String
  unfolding option_value nth
  resolve_model c i =
      let n = length p.options in
      if truthy c.model && any (λ o. o.value == c.model) p.options
      then c.model
      else option_value (nth (i % (if ltb n 1 then 1 else n)) p.options)

  -- `cols.map((c, i) => resolveModel(c, i))`, from the position `i` on
  unfoldable pub resolved_from : ℕ → List (Column Num) → List String
  unfolding resolve_model
  resolved_from i [] = []
  resolved_from i (c ∷ cs) = resolve_model c i ∷ resolved_from (suc i) cs

  -- `makeColumn`
  unfoldable pub make_column : ℕ → String → String → Column Num
  unfolding column_id
  make_column n random model = record {
    id = column_id n random;
    model = model;
    temperature = p.temperature;
    max_tokens = p.max_tokens;
    params_open = false;
  }

  -- The first option that no column uses, or else the first.
  unfoldable pub unused_model : List (Column Num) → String
  unfolding resolved_from option_value
  unused_model columns =
      elim (find (λ o. not (member o.value (resolved_from 0 columns))) p.options) [
        | some o ↦ o.value
        | none ↦ option_value (nth 0 p.options)
      ]

  -- The first render, where `n` ids were given before.
  unfoldable pub initial : ℕ → String → String → Compare Num
  unfolding make_column option_value
  initial n first second = record {
    columns =
        make_column (suc n) first (option_value (nth 0 p.options))
        ∷ make_column (suc (suc n)) second (
            or_default (elim (nth 1 p.options) [ none ↦ none | some o ↦ some o.value ])
              (option_value (nth 0 p.options)))
        ∷ [];
    statuses = [];
    draft = "";
    column_seq = suc (suc n);
  }

  -- `canRun`
  unfoldable pub can_run : Compare Num → Bool
  unfolding any_streaming resolved_from
  can_run s =
      not (any_streaming s.statuses s.columns)
      && truthy (trim s.draft)
      && not (truthy (or_default p.blocked_reason ""))
      && any truthy (resolved_from 0 s.columns)

  -- `paramsFor`
  unfoldable pub params_for : Column Num → ℕ → SendParams Num Format
  unfolding resolve_model
  params_for c i = record {
    model = resolve_model c i;
    system_prompt = p.system_prompt;
    temperature = if p.synced then p.temperature else c.temperature;
    max_tokens = if p.synced then p.max_tokens else c.max_tokens;
    stream = p.stream;
    api_key = p.api_key;
    response_format = p.response_format;
  }

  -- `columns.map((col, i) => handles.current.get(col.id)?.send(…))`, from the position `i` on
  unfoldable pub sends_from : ℕ → String → List (Column Num) → List (Command Num Format)
  unfolding params_for
  sends_from i text [] = []
  sends_from i text (c ∷ cs) = send c.id text (params_for c i) ∷ sends_from (suc i) text cs

  -- The shared values, which every column gets when the sync is turned off.
  unfoldable pub seeded : Column Num → Column Num
  seeded c = record c { temperature = p.temperature; max_tokens = p.max_tokens }

  unfoldable pub on_event : CompareEvent Num → Compare Num → Compare Num × List (Command Num Format)
  unfolding make_column unused_model without_status seeded index_of insert_after patch_column
      can_run sends_from
  on_event (add_column random) s = (
    if leb max_columns (length s.columns) then s else record s {
      columns = s.columns ++ make_column (suc s.column_seq) random (unused_model s.columns) ∷ [];
      column_seq = suc s.column_seq;
    },
    [],
  )
  on_event (remove_column id) s = (
    record s {
      columns =
          if leb (length s.columns) min_columns
          then s.columns
          else filter (λ c. not (c.id == id)) s.columns;
      statuses = without_status id s.statuses;
    },
    stop id ∷ [],
  )
  on_event (duplicate_column id random) s = (
    if leb max_columns (length s.columns) then s else elim (index_of id s.columns) [
      | none ↦ s
      | some i ↦ elim (nth i s.columns) [
        | none ↦ s
        | some c ↦ record s {
          columns =
              insert_after i (record c { id = column_id (suc s.column_seq) random }) s.columns;
          column_seq = suc s.column_seq;
        }
      ]
    ],
    [],
  )
  on_event (change_column id q) s = (record s { columns = patch_column id q s.columns }, [])
  on_event (toggle_sync next) s =
      (if next then s else record s { columns = map seeded s.columns }, sync_change next ∷ [])
  on_event (report_status id status) s =
      (record s { statuses = (id, status) ∷ without_status id s.statuses }, [])
  on_event (type_draft text) s = (record s { draft = text }, [])
  on_event run_all s =
      if can_run s then (record s { draft = "" }, sends_from 0 s.draft s.columns) else (s, [])
  on_event stop_all s = (s, map (λ c. stop c.id) s.columns)
  on_event clear_all s = (s, map (λ c. clear c.id) s.columns)

module _ {Num Format : Type 0} where
  -- Events, each with the props of its render; the state after them.
  unfoldable pub on_events : List (Props Num Format × CompareEvent Num) → Compare Num → Compare Num
  unfolding on_event
  on_events [] s = s
  on_events ((p, e) ∷ rest) s = on_events rest (on_event p e s).0

-- ===== src/Store/Provision.antt =====
-- `reconcile_policies` of server/src/db/provision.rs: at startup the managed rows of the policy table
-- are made to match the configuration. `origins` compares as it decodes.
pub mod Counts
pub mod Rows
pub mod Matched
pub mod Provisioned
use native.Mathlib.Decide.{ℕ_discrete}
use keychute.Prelude.{
  ◌≡◌, refl, ℕ, zero, suc, ◌+◌, Bool, true, false, not, ◌&&◌, Option, none, some, List, [], ◌∷◌,
  ◌++◌, Text, codes, text_eq, is_some, Result, ok, err, ◌>>=◌, ◌>>◌, ensure, any, ◌==◌, keep,
  if◌then◌else◌,
}
use keychute.Prelude.Int.{ℤ, pos, negsuc}
use keychute.Store.{DbError, constraint_violated}
use keychute.Store.Policies.{PolicyRow}
use keychute.Types.{Uuid, DateTime, Origin}

-- A rule as the configuration wants it: `NewPolicy` without `created_by`, which is not read here.
pub record NewPolicy : Type 0 where
  pub client_name : Option Text
  pub secret_name : Option Text
  pub secret_tag : Option Text
  pub mechanism : Text
  pub outcome : Text
  pub priority : ℤ
  pub origins : Option (List Origin)
  pub methods : List Text
  pub path_prefixes : List Text
  pub max_ttl_seconds : Option ℤ
  pub max_uses : Option ℤ
  pub not_after : Option DateTime

-- What `policy_key` makes a JSON array of; `created_by` is left out.
abbrev pub policy_of : PolicyRow → NewPolicy
policy_of r = record {
  client_name = r.client_name;
  secret_name = r.secret_name;
  secret_tag = r.secret_tag;
  mechanism = r.mechanism;
  outcome = r.outcome;
  priority = r.priority;
  origins = r.origins;
  methods = r.methods;
  path_prefixes = r.path_prefixes;
  max_ttl_seconds = r.max_ttl_seconds;
  max_uses = r.max_uses;
  not_after = r.not_after;
}

unfoldable pub ℤ-discrete : Discrete ℤ
ℤ-discrete = hlevel ℕ_discrete

unfoldable pub Origin-discrete : Discrete Origin
Origin-discrete = hlevel ℕ_discrete

unfoldable pub NewPolicy-discrete : Discrete NewPolicy
NewPolicy-discrete = hlevel (ℕ_discrete, ℤ-discrete, Origin-discrete)

abbrev pub is_yes : {P : Type 0} → Dec P → Bool
is_yes (yes p) = true
is_yes (no n) = false

-- Equality of the keys.
unfoldable pub same_key : NewPolicy → NewPolicy → Bool
same_key p q = is_yes (NewPolicy-discrete p q)

-- `iter().position(|k| k == key)`.
unfoldable pub position : NewPolicy → List NewPolicy → Option ℕ
position key [] = none
position key (p ∷ ps) =
    let rest = position key ps in
    if same_key key p then some 0 else elim rest [ none ↦ none | some i ↦ some (suc i) ]

-- The last of `p ∷ ps`, then the others.
unfoldable pub last_first : NewPolicy → List NewPolicy → List NewPolicy
last_first p [] = p ∷ []
last_first p (q ∷ qs) = elim (last_first q qs) [ [] ↦ p ∷ [] | l ∷ front ↦ l ∷ p ∷ front ]

-- The last takes the place of the one that is removed.
unfoldable pub swap_remove : ℕ → List NewPolicy → List NewPolicy
swap_remove i [] = []
swap_remove zero (p ∷ []) = []
swap_remove zero (p ∷ q ∷ qs) = last_first q qs
swap_remove (suc i) (p ∷ ps) = p ∷ swap_remove i ps

-- The audit rows of a reconciliation, each by its kind and its `policy_id`.
pub data PolicyEvent : Type 0 where
  policy_deleted policy_created : Uuid → PolicyEvent

pub record PolicyTable : Type 0 where
  pub rows : List PolicyRow
  pub log : List PolicyEvent

pub record PolicyChanges : Type 0 where
  pub created : ℕ
  pub deleted : ℕ

abbrev pub delete_row : Uuid → PolicyTable → PolicyTable
delete_row id t = record {
  rows = keep (λ r. not (r.id == id)) t.rows;
  log = policy_deleted id ∷ t.log;
}

pub record Reconciled : Type 0 where
  pub wanted : List NewPolicy
  pub table : PolicyTable
  pub changes : PolicyChanges

-- The loop over the managed rows.
unfoldable pub match_existing : List PolicyRow → Reconciled → Reconciled
match_existing [] s = s
match_existing (row ∷ rows) s = elim (position (policy_of row) s.wanted) [
  | some i ↦ match_existing rows (record s { wanted = swap_remove i s.wanted })
  | none ↦ match_existing rows (record s {
    table = delete_row row.id s.table;
    changes = record s.changes { deleted = s.changes.deleted + 1 };
  })
]

-- `CONFIG_ACTOR`.
abbrev pub config_actor : Text
config_actor = codes "config"

-- The checks that migrations/0001_init.sql declares on the table.
abbrev pub is_storable : NewPolicy → Bool
is_storable p =
    any (text_eq p.outcome)
      (codes "auto-approve" ∷ codes "notify-only" ∷ codes "require-approval" ∷ codes "deny" ∷ [])
    && not (is_some p.secret_name && is_some p.secret_tag)

-- The id that the database draws is an argument, and so is the time of the transaction.
module _ (draw : ℕ → Uuid) (now : DateTime) where
  abbrev pub managed_row : Uuid → NewPolicy → PolicyRow
  managed_row id p = record {
    id = id;
    client_name = p.client_name;
    secret_name = p.secret_name;
    secret_tag = p.secret_tag;
    mechanism = p.mechanism;
    outcome = p.outcome;
    priority = p.priority;
    origins = p.origins;
    methods = p.methods;
    path_prefixes = p.path_prefixes;
    max_ttl_seconds = p.max_ttl_seconds;
    max_uses = p.max_uses;
    not_after = p.not_after;
    created_by = config_actor;
    created_at = now;
    managed_by_config = true;
  }

  unfoldable pub insert_wanted :
      List NewPolicy → PolicyTable → PolicyChanges → Result DbError (PolicyChanges × PolicyTable)
  insert_wanted [] t c = ok (c, t)
  insert_wanted (p ∷ ps) t c = do
    ensure (is_storable p && not (any (λ r. r.id == draw c.created) t.rows)) constraint_violated
    insert_wanted ps
        (record {
          rows = managed_row (draw c.created) p ∷ t.rows;
          log = policy_created (draw c.created) ∷ t.log;
        })
        (record c { created = c.created + 1 })

  unfoldable pub reconcile_policies :
      List NewPolicy → PolicyTable → Result DbError (PolicyChanges × PolicyTable)
  reconcile_policies desired t =
      let s =
        match_existing (keep (λ r. r.managed_by_config) t.rows)
          (record { wanted = desired; table = t; changes = record { created = 0; deleted = 0 } }) in
      insert_wanted s.wanted s.table s.changes

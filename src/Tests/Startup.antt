-- ===== src/Tests/Startup.antt =====
-- `reconcile_policies` of server/src/db/provision.rs, on a table of three rows.
use native.Mathlib.Decide.{ℕ_discrete}
use keychute.Prelude.{
  ◌≡◌, refl, false, none, some, List, [], ◌∷◌, arith, codes, text_eq, ok, Text, ℕ, ◌+◌, ◌≤◌, any,
}
use keychute.Prelude.Int.{pos}
use keychute.Store.Policies.{PolicyRow}
use keychute.Store.Provision.{
  NewPolicy, NewPolicy-discrete, Origin-discrete, ℤ-discrete, PolicyTable, PolicyChanges,
  policy_created, policy_deleted, same_key, position, last_first, swap_remove, match_existing,
  managed_row, insert_wanted, reconcile_policies,
}
use keychute.Store.Provision.Provisioned.{Provisioned, reconcile_policies-Provisioned}
use keychute.Store.Provision.Rows.{has_id}
use keychute.Types.{Uuid}

abbrev rule : Text → NewPolicy
rule outcome = record {
  client_name = some (codes "agent");
  secret_name = none;
  secret_tag = some (codes "ci");
  mechanism = codes "proxy";
  outcome = outcome;
  priority = pos 5;
  origins = some [];
  methods = codes "GET" ∷ [];
  path_prefixes = [];
  max_ttl_seconds = none;
  max_uses = none;
  not_after = none;
}

abbrev kept : NewPolicy
kept = rule (codes "auto-approve")

abbrev stale : NewPolicy
stale = rule (codes "notify-only")

abbrev wanted : NewPolicy
wanted = rule (codes "deny")

abbrev row : Uuid → NewPolicy → PolicyRow
row id p = managed_row (λ n. 0) 1 id p

-- What a person made; its rule is one that the configuration wants too.
abbrev own : PolicyRow
own = record (row 3 wanted) { created_by = codes "ada"; managed_by_config = false }

abbrev table : PolicyTable
table = record { rows = row 1 kept ∷ row 2 stale ∷ own ∷ []; log = [] }

abbrev desired : List NewPolicy
desired = wanted ∷ kept ∷ []

abbrev draw : ℕ → Uuid
draw n = 100 + n

abbrev after : PolicyTable
after = record {
  rows = managed_row draw 9 100 wanted ∷ row 1 kept ∷ own ∷ [];
  log = policy_created 100 ∷ policy_deleted 2 ∷ [];
}

reconciled :
    reconcile_policies draw 9 desired table ≡ ok (record { created = 1; deleted = 1 }, after)
unfolding reconcile_policies match_existing insert_wanted position swap_remove last_first same_key
    NewPolicy-discrete Origin-discrete ℤ-discrete text_eq ℕ_discrete
reconciled = refl

different : (m n : ℕ) → draw m ≡ draw n → m ≡ n
different m n h = omega arith

fresh : (n : ℕ) → 0 ≤ n → any (has_id (draw n)) table.rows ≡ false
fresh n h = ground arith

reconcile_policies-Provisioned_example :
    (changes : PolicyChanges) × (t' : PolicyTable) × (reconcile_policies draw 9 desired table
      ≡ ok (changes, t'))
    × Provisioned desired table t'
    × ((draw' : ℕ → Uuid) (later : ℕ)
        → reconcile_policies draw' later desired t' ≡ ok (record { created = 0; deleted = 0 }, t'))
unfolding text_eq
reconcile_policies-Provisioned_example =
    reconcile_policies-Provisioned draw 9 desired table (refl, (refl, (refl, tt))) refl different
      fresh

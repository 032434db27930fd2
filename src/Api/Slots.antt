-- ===== src/Api/Slots.antt =====
-- The slots of server/src/state.rs: how many waits and proxy streams each client has. A `HashMap` is
-- the function of its lookups; each access to one holds its lock.
pub mod Counted
use keychute.Prelude.{
  ℕ, ◌+◌, ◌-◌, Bool, true, false, Option, none, some, Text, text_eq, ◌&&◌, leb, ◌==◌, if◌then◌else◌,
}

pub data SlotKind : Type 0 where
  wait proxy : SlotKind

abbrev pub Counts : Type 0
Counts = Text → Option ℕ

-- `wait_counts` and `proxy_counts`.
abbrev pub Slots : Type 0
Slots = SlotKind → Counts

pub record SlotGuard : Type 0 where
  pub client : Text
  pub which : SlotKind

pub record Caps : Type 0 where
  pub max_waits_per_client : ℕ
  pub max_proxy_streams_per_client : ℕ

abbrev pub cap_of : Caps → SlotKind → ℕ
cap_of caps wait = caps.max_waits_per_client
cap_of caps proxy = caps.max_proxy_streams_per_client

abbrev pub or_zero : Option ℕ → ℕ
or_zero none = 0
or_zero (some n) = n

abbrev pub same_kind : SlotKind → SlotKind → Bool
same_kind wait wait = true
same_kind proxy proxy = true
same_kind _ _ = false

-- The entry of a client in one of the maps.
abbrev pub set_count : SlotKind → Text → Option ℕ → Slots → Slots
set_count which client v s = λ k c. if same_kind k which && text_eq c client then v else s k c

-- A refusal leaves the entry that `or_insert(0)` made.
unfoldable pub try_take_slot : Caps → Text → SlotKind → Slots → Option SlotGuard × Slots
try_take_slot caps client which s =
    let n = or_zero (s which client) in
    if leb (cap_of caps which) n
    then (none, set_count which client (some n) s)
    else (some (record { client = client; which = which }), set_count which client (some (n + 1)) s)

-- `n.saturating_sub(1)`; an entry that reaches 0 is removed.
abbrev pub lowered : Option ℕ → Option ℕ
lowered none = none
lowered (some n) = if n - 1 == 0 then none else some (n - 1)

unfoldable pub drop_slot : SlotGuard → Slots → Slots
drop_slot g s = set_count g.which g.client (lowered (s g.which g.client)) s

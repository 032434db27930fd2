-- ===== src/Types.antt =====
-- types/src/lib.rs: tiers, mechanisms, origins, constraints and request states.
-- A `Uuid` and a `DateTime<Utc>` are numbers: the id's 128 bits, and microseconds since the epoch.
use keychute.Prelude.{
  ℕ, Bool, true, false, ◌&&◌, Option, none, some, List, Text, codes, text_eq, ◌==◌, if◌then◌else◌,
  ltb, not,
}

abbrev pub Uuid : Type 0
Uuid = ℕ

abbrev pub DateTime : Type 0
DateTime = ℕ

-- How many units of `DateTime` a second has.
abbrev pub second : ℕ
second = 1000000

pub data Tier : Type 0 where
  brokered trusted_client cooperating_client direct : Tier

abbrev pub tier_as_int : Tier → ℕ
tier_as_int brokered = 0
tier_as_int trusted_client = 1
tier_as_int cooperating_client = 2
tier_as_int direct = 3

-- `from_int`, on the columns' values; none of them is negative.
unfoldable pub tier_from_int : ℕ → Option Tier
tier_from_int v =
    if v == 0
    then some brokered
    else if v == 1
    then some trusted_client
    else if v == 2
    then some cooperating_client
    else if v == 3
    then some direct
    else none

-- The derived `>` on tiers.
abbrev pub exceeds : Tier → Tier → Bool
exceeds a b = ltb (tier_as_int b) (tier_as_int a)

pub data Mechanism : Type 0 where
  brokered autofill cli_read direct_read : Mechanism

abbrev pub tier : Mechanism → Tier
tier Mechanism.brokered = Tier.brokered
tier Mechanism.autofill = Tier.trusted_client
tier Mechanism.cli_read = Tier.cooperating_client
tier Mechanism.direct_read = Tier.direct

abbrev pub mechanism_as_str : Mechanism → Text
mechanism_as_str Mechanism.brokered = codes "brokered"
mechanism_as_str Mechanism.autofill = codes "autofill"
mechanism_as_str Mechanism.cli_read = codes "cli-read"
mechanism_as_str Mechanism.direct_read = codes "direct-read"

unfoldable pub mechanism_from_str : Text → Option Mechanism
unfolding text_eq
mechanism_from_str s =
    if text_eq s (codes "brokered")
    then some Mechanism.brokered
    else if text_eq s (codes "autofill")
    then some Mechanism.autofill
    else if text_eq s (codes "cli-read")
    then some Mechanism.cli_read
    else if text_eq s (codes "direct-read")
    then some Mechanism.direct_read
    else none

-- The derived `==` on mechanisms.
abbrev pub same_mechanism : Mechanism → Mechanism → Bool
same_mechanism Mechanism.brokered Mechanism.brokered = true
same_mechanism Mechanism.autofill Mechanism.autofill = true
same_mechanism Mechanism.cli_read Mechanism.cli_read = true
same_mechanism Mechanism.direct_read Mechanism.direct_read = true
same_mechanism _ _ = false

abbrev pub is_releasing : Mechanism → Bool
is_releasing m = not (same_mechanism m Mechanism.brokered)

pub record Origin : Type 0 where
  pub host : Text
  pub port : Option ℕ

abbrev pub effective_port : Origin → ℕ
effective_port o = elim o.port [ none ↦ 443 | some p ↦ p ]

abbrev pub same_target : Origin → Origin → Bool
same_target a b = text_eq a.host b.host && effective_port a == effective_port b

pub record Constraints : Type 0 where
  pub origins : List Origin
  pub methods : List Text
  pub path_prefixes : List Text
  pub ttl_seconds : ℕ
  pub max_uses : Option ℕ

pub data RequestState : Type 0 where
  pending approved denied expired : RequestState

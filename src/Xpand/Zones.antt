-- ===== src/Xpand/Zones.antt =====
-- The zone numbers that `set_zones` gives.
use xbench_community.Prelude.{
  ℕ, ◌+◌, ◌≤◌, ◌<◌, String, Option, some, none, List, [], ◌∷◌, Dict, lookup, insert, str_eq_iff,
  ◌≡◌, refl, arith, lookup-insert, length, sym, ◌≢◌, All,
}
use mathlib.Core.Path.{subst}
use Prim.Native.String.{◌++◌ as str_append}
use xbench_community.Cluster.{Node}
use xbench_community.Xpand.{zone_unique_str, number_zones}

-- The numbers run from 1 to next - 1, one for each zone.
pub record IsNumbering (zones : Dict ℕ) (next : ℕ) : Type 0 where
  pub in_range : (z : String) (i : ℕ) → lookup z zones ≡ some i → (1 ≤ i) × (i < next)
  pub distinct : (z w : String) (i : ℕ) → lookup z zones ≡ some i → lookup w zones ≡ some i → z ≡ w
  pub counted : length zones + 1 ≡ next

IsNumbering-nil : IsNumbering [] 1
unfolding lookup
IsNumbering-nil = record { in_range = λ z i h. cc; distinct = λ z w i h k. cc; counted = refl }

length-insert_new :
    (k : String) (v : ℕ) (d : Dict ℕ) → lookup k d ≡ none → length (insert k v d) ≡ length d + 1
unfolding lookup insert
length-insert_new k v [] h = refl
length-insert_new k v ((j, w) ∷ d) h = ground (arith, length-insert_new k v d)

IsNumbering-insert :
    (zone : String) (zones : Dict ℕ) (next : ℕ)
    → IsNumbering zones next
    → lookup zone zones ≡ none
    → IsNumbering (insert zone next zones) (next + 1)
IsNumbering-insert zone zones next n new = record {
  in_range = λ z i h. ground (arith, lookup-insert zone z next zones, n.in_range z i, n.counted);
  distinct = λ z w i h k. ground (
    arith,
    lookup-insert zone z next zones,
    lookup-insert zone w next zones,
    n.in_range z i,
    n.in_range w i,
    n.distinct z w i,
    str_eq_iff zone z,
    str_eq_iff zone w,
  );
  counted = omega (arith, length-insert_new zone next zones new, n.counted);
}

-- The zones of a part of the nodes are numbered, under the text of env with that of zone behind it.
abbrev pub AreNumbered : Dict ℕ → List Node → Type 0
AreNumbered zones nodes = All (λ n. lookup (str_append n.vm.env n.vm.zone) zones ≢ none) nodes

-- A zone that has a number keeps it.
abbrev Extends : Dict ℕ → Dict ℕ → Type 0
Extends old new = (z : String) (i : ℕ) → lookup z old ≡ some i → lookup z new ≡ some i

-- What the loop makes of a numbering.
record IsExtended (old new : Dict ℕ) (nodes : List Node) : Type 0 where
  numbered : (last : ℕ) × IsNumbering new last
  kept : Extends old new
  complete : AreNumbered new nodes

Extends-insert :
    (zone : String) (next : ℕ) (zones : Dict ℕ)
    → lookup zone zones ≡ none
    → Extends zones (insert zone next zones)
Extends-insert zone next zones new z i h =
    ground (arith, lookup-insert zone z next zones, str_eq_iff zone z)

lookup-insert_same :
    (zone : String) (next : ℕ) (zones : Dict ℕ) → lookup zone (insert zone next zones) ≡ some next
lookup-insert_same zone next zones =
    ground (arith, lookup-insert zone zone next zones, str_eq_iff zone zone)

number_zones-new :
    (zones : Dict ℕ) (next : ℕ) (x : Node) (nodes : List Node)
    → lookup (zone_unique_str x) zones ≡ none
    → number_zones zones next (x ∷ nodes)
      ≡ number_zones (insert (zone_unique_str x) next zones) (next + 1) nodes
unfolding number_zones
number_zones-new zones next x nodes e = rw (e, number_zones)

number_zones-seen :
    (zones : Dict ℕ) (next : ℕ) (x : Node) (nodes : List Node) (i : ℕ)
    → lookup (zone_unique_str x) zones ≡ some i
    → number_zones zones next (x ∷ nodes) ≡ number_zones zones next nodes
unfolding number_zones
number_zones-seen zones next x nodes i e = rw (e, number_zones)

not_none : {o : Option ℕ} (i : ℕ) → o ≡ some i → o ≢ none
not_none i e h = cc

-- One round of the loop, from what the rounds behind it do.
one_round :
    (old mid new : Dict ℕ) (i : ℕ) (x : Node) (nodes : List Node)
    → Extends old mid
    → lookup (zone_unique_str x) mid ≡ some i
    → IsExtended mid new nodes
    → IsExtended old new (x ∷ nodes)
unfolding zone_unique_str
one_round old mid new i x nodes ext here e = record {
  numbered = e.numbered;
  kept = λ z j h. e.kept z j (ext z j h);
  complete = (not_none i (e.kept (zone_unique_str x) i here), e.complete);
}

number_zones-IsExtended :
    (zones : Dict ℕ) (next : ℕ) (nodes : List Node)
    → IsNumbering zones next
    → IsExtended zones (number_zones zones next nodes) nodes
unfolding number_zones
number_zones-IsExtended zones next [] n = record {
  numbered = (next, n);
  kept = λ z i h. h;
  complete = tt;
}
number_zones-IsExtended zones next (x ∷ nodes) n =
    by_zone (lookup (zone_unique_str x) zones) refl
      (λ e.
        number_zones-IsExtended (insert (zone_unique_str x) next zones) (next + 1) nodes
          (IsNumbering-insert (zone_unique_str x) zones next n e))
      (number_zones-IsExtended zones next nodes n)
  where
    by_zone :
        (o : Option ℕ)
        → lookup (zone_unique_str x) zones ≡ o
        → (lookup (zone_unique_str x) zones ≡ none
            → IsExtended
                (insert (zone_unique_str x) next zones)
                (number_zones (insert (zone_unique_str x) next zones) (next + 1) nodes)
                nodes)
        → IsExtended zones (number_zones zones next nodes) nodes
        → IsExtended zones (number_zones zones next (x ∷ nodes)) (x ∷ nodes)
    by_zone none e new seen =
        subst (λ d. IsExtended zones d (x ∷ nodes)) (sym (number_zones-new zones next x nodes e))
          (one_round zones (insert (zone_unique_str x) next zones) _ next x nodes
            (Extends-insert (zone_unique_str x) next zones e)
            (lookup-insert_same (zone_unique_str x) next zones) (new e))
    by_zone (some i) e new seen =
        subst (λ d. IsExtended zones d (x ∷ nodes)) (sym (number_zones-seen zones next x nodes i e))
          (one_round zones zones _ i x nodes (λ z j h. h) e seen)

-- The first loop of set_zones gives a number to the text of env and zone, one behind the other, of
-- every node; each number lies between 1 and the number of texts, and two different texts have
-- different numbers.
pub number_zones-IsNumbering :
    (nodes : List Node)
    → IsNumbering (number_zones [] 1 nodes) (length (number_zones [] 1 nodes) + 1)
      × AreNumbered (number_zones [] 1 nodes) nodes
number_zones-IsNumbering nodes =
    let e = number_zones-IsExtended [] 1 nodes IsNumbering-nil in
    let (last, n) = e.numbered in
    (subst (IsNumbering (number_zones [] 1 nodes)) (sym n.counted) n, e.complete)

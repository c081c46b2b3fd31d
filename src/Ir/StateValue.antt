-- ===== src/Ir/StateValue.antt =====
-- ir/state_value: a value with the condition under which it is not poison.
use alive_next_deprecated.Prelude.{ℕ, Bool, ◌&&◌, ◌||◌, not, ◌==◌, if◌then◌else◌}

pub record StateValue : Type 0 where
  pub value : ℕ
  pub non_poison : Bool

unfoldable pub mk_if : Bool → StateValue → StateValue → StateValue
mk_if c t e = record {
  value = if c then t.value else e.value;
  non_poison = if c then t.non_poison else e.non_poison;
}

-- `implies`: where the first is not poison, the other is not poison and has the same value.
unfoldable pub implies : StateValue → StateValue → Bool
implies a b = not a.non_poison || (b.non_poison && (a.value == b.value))

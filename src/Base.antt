-- ===== src/Base.antt =====
-- The names that the other modules share: the libraries' are passed on, the rest stands in children.
mod Tests
mod Equality
mod Lists
mod Assoc
mod Raise
mod Int
mod Sort
mod Ranking
mod Grouping
pub use Tests.*
pub use Equality.*
pub use Lists.*
pub use Raise.*
unfoldable pub use Int.{sub_ℕ}
pub use Int.{ℤ, pos, negsuc, pos_part, neg_part, sub_ℕ_parts}
pub use Sort.*
pub use Ranking.*
pub use Grouping.*
unfoldable pub use Assoc.{get, put, has, remove}
pub use Assoc.{
  Dict, keys, values, get-put_self, get-put_ne, has-get, has-put, Distinct, keys-put-All, put-All,
  keys-put-Distinct, length-put, entries-get, get-remove_self, get-remove_ne,
}
pub use Prim.Native.Nat.{ℕ, zero, suc, ◌+◌, ◌-◌, ◌*◌, ◌/◌, ◌%◌, ◌^◌, ◌≤◌, ◌<◌}
pub use mathlib.Core.Path.{◌≡◌, refl, sym, ap, ap₂, ◌∙◌, subst, fun_ext, ◌≡⟨◌⟩◌, ◌∎}
pub use mathlib.Core.Logic.{◌≢◌, ◌↔◌, ◌⊎◌, inl, inr}
pub use mathlib.Core.Bool.{Bool, true, false, not, ◌&&◌, ◌||◌}
pub use mathlib.Core.Option.{Option, none, some}
pub use mathlib.Core.List.{List, [], ◌∷◌, ◌++◌, map, Memᴰ, Permᴰ}
pub use native.Mathlib.Omega.{arith}

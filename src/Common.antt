-- ===== src/Common.antt =====
-- Names that the other modules share: the libraries', passed on, and those of the children.
mod Tests
mod Lists
mod Maps
mod Int
mod Sums
mod Options
pub use Tests.*
pub use Options.*
pub use Lists.*
unfoldable pub use Sums.{weigh}
pub use Sums.{
  weigh-set, weigh-write, weigh-ge, weigh-le, weigh_full, weigh_const, weigh-append,
  weigh-replicate,
}
unfoldable pub use Maps.{find, insert, erase}
pub use Maps.{
  Map, find-insert, find-erase, keys, keys-insert, AllV, AllV-insert, AllV-find, AllV-erase,
}
pub use Int.{ℤ, pos, negsuc, pos_part, neg_part, sub_ℕ, ◌≤ℤ◌, ltb_ℤ, leb_ℤ}
unfoldable pub use Int.{◌+ℤ◌, ◌-ℤ◌, ◌*ℤ◌, quot_ℤ, word_of, int_of}
pub use Int.{+ℤ_parts, -ℤ_parts, eq_of_parts, int_laws, int_of-word_of, word_of-lt}
pub use Prim.Native.Nat.{ℕ, zero, suc, ◌+◌, ◌-◌, ◌*◌, ◌/◌, ◌%◌, ◌^◌, ◌≤◌, ◌<◌, min, max}
pub use mathlib.Core.Path.{◌≡◌, refl, sym, ap, ap₂, subst, subst₂, ◌∙◌, ◌≡⟨◌⟩◌, ◌∎}
pub use mathlib.Core.Logic.{◌≢◌, ◌↔◌, ◌⊎◌, inl, inr}
pub use mathlib.Core.Bool.{Bool, true, false, not, ◌&&◌, ◌||◌}
pub use mathlib.Core.Option.{Option, none, some}
pub use mathlib.Core.List.{List, [], ◌∷◌, ◌++◌, map, append_assoc, append-nil, map-append}
pub use native.Mathlib.Omega.{arith}
unfoldable pub use native.Mathlib.Decide.{dec_lt, ℕ_discrete}

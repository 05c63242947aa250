-- ===== src/Dhcp/Reply/Times.antt =====
-- The times of a lease in a reply of src/dhcp.rs.
use macmapd.Base.{
  ℕ, ◌*◌, ◌/◌, ◌%◌, ◌^◌, ◌<◌, ◌≡◌, ◌⊎◌, inl, inr, refl, Bytes, be32, leb, leb→le, Bool-cases, IsU32,
  arith,
}
use macmapd.Dhcp.Options.{option}
use macmapd.Dhcp.Reply.Body.{put_times}

-- The renewal and the rebinding time are put, in their order and before the end of the lease.
pub record IsTimed (lease : ℕ) (out bytes : Bytes) : Type 0 where
  pub renewal : ℕ
  pub rebinding : ℕ
  pub puts : bytes ≡ option (option out 58 (be32 renewal)) 59 (be32 rebinding)
  pub positive : 0 < renewal
  pub ordered : renewal < rebinding
  pub ends : rebinding < lease

-- For a lease of type `u32`, either it is shorter than 8 seconds and no times are put, or the renewal
-- and the rebinding time are put with 0 < T1 < T2 < lease: the product by 7 does not wrap, and the
-- cast back to 32 bits loses nothing.
pub put_times-IsTimed :
    (lease : ℕ) (out : Bytes)
    → IsU32 lease
    → ((lease < 8) × (put_times lease out ≡ out)) ⊎ IsTimed lease out (put_times lease out)
unfolding put_times
put_times-IsTimed lease out small = elim (Bool-cases (leb 8 lease)) [
  | inl long ↦
      let n = leb→le 8 lease long in
      rw long (
        inr (record {
          renewal = lease / 2;
          rebinding = lease * 7 / 8 % 2 ^ 32;
          puts = refl;
          positive = omega arith;
          ordered = omega arith;
          ends = omega arith;
        }))
  | inr short ↦ rw short (inl (ground arith, refl))
]

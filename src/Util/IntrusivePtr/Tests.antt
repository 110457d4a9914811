-- ===== src/Util/IntrusivePtr/Tests.antt =====
-- Runs of kernel/util/intrusive_ptr.h.
use reaveros.Prelude.{◌≡◌, refl, true, false, arith, ◌==◌, if◌then◌else◌}
use reaveros.Prelude.Outcome.{fault, Yields}
use reaveros.Util.IntrusivePtr.{Owners, copy_assign, copy_to, apply}
use reaveros.Util.IntrusivePtr.Counts.{IsCounted}
use reaveros.Util.IntrusivePtr.Operations.{apply-IsCounted, copy_assign_itself}

-- Two pointers, to an object at 8 and to one at 16.
abbrev two_owners : Owners
two_owners = record {
  ptr = λ i. if i == 1 then 8 else 16;
  intrusive_count = λ p. if p == 8 then 1 else if p == 16 then 1 else 0;
  live = λ p. if p == 8 then true else if p == 16 then true else false;
}

two_owners-IsCounted : IsCounted 2 two_owners
two_owners-IsCounted = record { tally = λ p z. ground arith; alive = λ p z. ground arith }

apply-IsCounted_example : Yields (IsCounted 2) (apply (copy_to 1 2) two_owners)
apply-IsCounted_example =
    apply-IsCounted 2 (copy_to 1 2) two_owners (omega arith)
      ((omega arith, omega arith), (omega arith, omega arith), λ e. omega (arith, e))
      two_owners-IsCounted

copy_assign_itself_example : copy_assign 1 1 two_owners ≡ fault
copy_assign_itself_example = copy_assign_itself 1 two_owners (λ e. omega (arith, e)) refl refl

-- ===== src/Task/Equality.antt =====
-- The derived equality of states is equality.
use dekit.Prelude.{◌≡◌, refl, true, Option, none, some, arith}
use dekit.Task.{
  ℤ, pos, negsuc, int_eq, code_eq, ExitInfo, exit_eq, TaskState, idle, starting, running, ready,
  stopping, backoff, done, exited, state_eq,
}

int_eq_sound : (a b : ℤ) → int_eq a b ≡ true → a ≡ b
int_eq_sound (pos a) (pos b) h = ground arith
int_eq_sound (negsuc a) (negsuc b) h = ground arith
int_eq_sound (pos a) (negsuc b) h = absurd (cc)
int_eq_sound (negsuc a) (pos b) h = absurd (cc)

code_eq_sound : (a b : Option ℤ) → code_eq a b ≡ true → a ≡ b
code_eq_sound none none h = refl
code_eq_sound (some a) (some b) h = cc (int_eq_sound a b h)
code_eq_sound none (some b) h = absurd (cc)
code_eq_sound (some a) none h = absurd (cc)

exit_eq_sound : (a b : ExitInfo) → exit_eq a b ≡ true → a ≡ b
exit_eq_sound a b h = ground (arith, code_eq_sound a.code b.code, code_eq_sound a.signal b.signal)

pub state_eq_sound : (a b : TaskState) → state_eq a b ≡ true → a ≡ b
unfolding state_eq
state_eq_sound idle idle h = refl
state_eq_sound starting starting h = refl
state_eq_sound running running h = refl
state_eq_sound ready ready h = refl
state_eq_sound stopping stopping h = refl
state_eq_sound (backoff a) (backoff b) h = cc (exit_eq_sound a b h)
state_eq_sound (done a) (done b) h = cc (exit_eq_sound a b h)
state_eq_sound (exited a) (exited b) h = cc (exit_eq_sound a b h)
state_eq_sound _ _ h = absurd (cc)

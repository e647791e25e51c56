-- ===== src/Numeric/Overcommit.antt =====
-- What a negative quantity does: the daemon parses it with strtol and checks no sign.
use flom.Prelude.{ℕ, suc, ◌+◌, true, String, []}
use flom.Prelude.Int.{ℤ, pos, negsuc, ◌+ℤ◌, int_laws, +ℤ_parts, -ℤ_parts}
use flom.Rsrc.Types.{Rc, LockMode, Conn, LockBody}
use flom.Rsrc.Env.{Env, World, IsReliable}
use flom.Rsrc.Calls.Answers.{IsAnswerStep}
use flom.Numeric.{Numeric, new_lock, hold, request}
use flom.Numeric.Replies.{Answers, numeric_request_replies}

abbrev pub ask : String → ℤ → LockBody
ask name q = record { name = name; mode = LockMode.nl; wait = true; quantity = q }

-- All of `t` units are free.
abbrev pub free_units : String → ℕ → Numeric
free_units name t = record {
  name = name;
  total_quantity = pos t;
  locked_quantity = pos 0;
  holders = [];
  waitings = [];
}

-- With memory and connections that await an answer, on a resource of t free units, of which one
-- connection asks for -(n + 1), the next is granted t + n + 1 units, more than there are.
pub negative_request_overcommits :
    (e : Env) (name : String) (t n uid : ℕ) (c d : Conn) (w w' : World)
    → IsReliable e
    → IsAnswerStep (w.last_step c + 8)
    → IsAnswerStep (w'.last_step d + 8)
    → let r = (request e (free_units name t) uid c (ask name (negsuc n)) w).resource in
      Answers w' d
        (request e r uid d (ask name (pos (t + suc n))) w')
        (hold r (new_lock (pos (t + suc n)) d))
        Rc.ok
unfolding hold
negative_request_overcommits e name t n uid c d w w' reliable h h' = rw first.1 (
    (numeric_request_replies e (hold (free_units name t) (new_lock (negsuc n) c)) uid d
        (ask name (pos (t + suc n))) w' reliable h').0
      (omega (int_laws, +ℤ_parts (pos 0) (negsuc n), -ℤ_parts (pos t) (pos 0 +ℤ negsuc n))))
  where
    first :
        Answers w c
          (request e (free_units name t) uid c (ask name (negsuc n)) w)
          (hold (free_units name t) (new_lock (negsuc n) c))
          Rc.ok
    first =
        (numeric_request_replies e (free_units name t) uid c (ask name (negsuc n)) w reliable h).0
          (omega (int_laws, -ℤ_parts (pos t) (pos 0)))

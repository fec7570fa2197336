-- ===== src/Scan/Ring/Walked.antt =====
-- `Walk` of internal/scan/walk.go with its goroutines, against the walk one entry after the other.
use osfp.Base.{Bytes, Bool, List, Option, ◌≡◌}
use osfp.Entry.{Entry}
use osfp.Scan.Tree.{Answer, Node}
use osfp.Scan.Walk.{walk}
use osfp.Scan.Settings.{Options}
use osfp.Scan.Walk.Hashed.{unhashed, Holds, walk-hashed}
use osfp.Scan.Walk.Totals.{count_all}
use osfp.Scan.Ring.{Pipeline}
use osfp.Scan.Ring.Steps.{Reached, IsOver, walk_error}
use osfp.Scan.Ring.Delivered.{Passed, Reached-Passed}

-- However the goroutines of a scan take turns, and whenever the caller's context is cancelled: where
-- the consumer has come to its end and the scan has no error, the callback was given exactly the
-- entries that the walk of the tree emits, in their order, and accepted them. If the callback
-- failed, it was given these entries up to the one that it refused, and its error is that of the
-- scan; a scan that was cancelled has given it the first of them. What the scan counted are the
-- entries that the callback was given. The files of the tree hold what the workers read.
pub Reached-walk :
    (glob : Bytes → Bytes → Option Bool) (opts : Options) (contents : Bytes → Answer)
    (emit : List Entry → Entry → Option Bytes) (root : Bytes) (n : Node) (s : Pipeline)
    → Holds contents root n
    → Reached opts contents emit (walk glob (unhashed opts) root n).emitted s
    → IsOver s
    → Passed opts contents emit (walk glob opts root n).emitted s.emitted (walk_error s)
      × (s.stats ≡ count_all s.emitted)
Reached-walk glob opts contents emit root n s h r over =
    rw (walk-hashed glob opts contents root n h)
      (Reached-Passed opts contents emit (walk glob (unhashed opts) root n).emitted s r over)

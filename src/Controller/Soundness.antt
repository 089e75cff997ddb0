-- ===== src/Controller/Soundness.antt =====
-- What every step of the protocol of a transition keeps (controller/controller.go).
use solace_broker_autoscale.Controller.Protocol.{
  Stage, Step, Steps, Sound, stays, onward, publishes_prepare, enters_pause, publishes_pause,
  attempts_fence, fences, enters_drain, publishes_drain, enters_commit, publishes_commit,
  enters_activate, enables_ingress, verifies_ingress, publishes_activate, completes,
  requests_rollback, unfences, publishes_rollback, completes_rollback,
}
use solace_broker_autoscale.Prelude.{arith}

pub Step-Sound : (s t : Stage) → Step s t → Sound s → Sound t
Step-Sound s t (publishes_prepare f n e) v = rw e (ground (arith, f.in_phase))
Step-Sound s t (enters_pause f d e) v = rw e (ground (arith, f.in_phase))
Step-Sound s t (publishes_pause f n e) v = rw e (ground (arith, f.in_phase))
Step-Sound s t (attempts_fence f d e) v = rw e (ground (arith, f.in_phase))
Step-Sound s t (fences f d a e) v = rw e (ground (arith, f.in_phase))
Step-Sound s t (enters_drain f d a c e) v = rw e (ground (arith, f.in_phase))
Step-Sound s t (publishes_drain f n e) v = rw e (ground (arith, f.in_phase))
Step-Sound s t (enters_commit f d e) v = rw e (ground (arith, f.in_phase))
Step-Sound s t (publishes_commit f n e) v = rw e (ground (arith, f.in_phase))
Step-Sound s t (enters_activate f d e) v = rw e (ground (arith, f.in_phase))
Step-Sound s t (enables_ingress f n e) v = rw e (ground (arith, f.in_phase))
Step-Sound s t (verifies_ingress f i n e) v = rw e (ground (arith, f.in_phase))
Step-Sound s t (publishes_activate f i w n e) v = rw e (ground (arith, f.in_phase))
Step-Sound s t (completes f d e) v = rw e (ground (arith, f.in_phase))
Step-Sound s t (requests_rollback l r c a e) v = rw e (ground arith)
Step-Sound s t (unfences b n e) v = rw e (ground arith)
Step-Sound s t (publishes_rollback b u n e) v = rw e (ground arith)
Step-Sound s t (completes_rollback b d e) v = rw e (ground arith)

pub Steps-Sound : {s t : Stage} → Steps s t → Sound s → Sound t
Steps-Sound stays v = v
Steps-Sound (onward {t} {u} p step) v = Step-Sound t u step (Steps-Sound p v)

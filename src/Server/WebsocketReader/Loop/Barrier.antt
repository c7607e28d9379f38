-- ===== src/Server/WebsocketReader/Loop/Barrier.antt =====
-- The barrier: one reader of the connection at a time, and no goroutine waits for ever.
use go_grpc_http.Common.{
  ℕ, ◌+◌, ◌≤◌, none, some, List, ◌≡◌, ◌≢◌, inl, inr, refl, sym, ap, ◌∙◌, arith, subst, Option-cases,
  ◌⊎◌,
}
use go_grpc_http.Errors.{Error}
use go_grpc_http.Server.WebsocketReader.{Incoming}
use go_grpc_http.Server.WebsocketReader.Loop.{
  Loop, at_barrier, in_reader, offering, stopped, Call, idle, selecting, buffering, checking, World,
  Step, takes_barrier, gets, stops_waiting, stops_offering, reads_sticky, reads_current, selects,
  read_cancelled, gets_error, gets_reader, read_broken, releases, checks, cancels, Reach, begun,
  stepped,
}

-- What the loop and the call hold of the barrier: from the receive from its channel to the send.
abbrev pub loop_holds : Loop → ℕ
loop_holds at_barrier = 0
loop_holds in_reader = 1
loop_holds (offering i) = 1
loop_holds stopped = 0

abbrev pub call_holds : Call → ℕ
call_holds idle = 0
call_holds (selecting n) = 0
call_holds (buffering n r) = 1
call_holds (checking n m) = 0

abbrev IsWorking : Loop → Type 0
IsWorking stopped = ⊥
IsWorking at_barrier = Unit
IsWorking in_reader = Unit
IsWorking (offering i) = Unit

pub record IsFair (w : World) : Type 0 where
  pub one : w.barrier + loop_holds w.loop + call_holds w.call ≤ 1
  -- The value is lost only behind an error or in a loop that has stopped.
  pub kept : w.err ≡ none → IsWorking w.loop → w.barrier + loop_holds w.loop + call_holds w.call ≡ 1
  pub ended : w.loop ≡ stopped → w.read_ctx ≢ none
  -- A call that is not idle began without an error.
  pub clean : w.call ≢ idle → w.err ≡ none

-- The value is somewhere, with the loop and the call where they are.
held :
    {v : World} {l : Loop} {c : Call}
    → IsFair v
    → v.loop ≡ l
    → v.call ≡ c
    → v.barrier + loop_holds l + call_holds c ≤ 1
held h l c = omega (arith, h.one, ap loop_holds l, ap call_holds c)

kept_at :
    {v : World} {l : Loop} {c : Call}
    → IsFair v
    → v.err ≡ none
    → IsWorking l
    → v.loop ≡ l
    → v.call ≡ c
    → v.barrier + loop_holds l + call_holds c ≡ 1
kept_at h e k l c =
    omega (arith, h.kept e (subst IsWorking (sym l) k), ap loop_holds l, ap call_holds c)

busy : {v : World} {c : Call} → IsFair v → c ≢ idle → v.call ≡ c → v.err ≡ none
busy h n c = h.clean (λ e. n (sym c ∙ e))

Step-IsFair : {v w : World} → Step v w → IsFair v → IsFair w
Step-IsFair {v} (takes_barrier l n b) h = record {
  one = omega (arith, held h l refl, b);
  kept = λ e k. omega (arith, kept_at h e tt l refl, b);
  ended = λ x. cc;
  clean = h.clean;
}
Step-IsFair {v} (gets l i is e) h = record {
  one = held h l refl;
  kept = λ x k. kept_at h x tt l refl;
  ended = λ x. cc;
  clean = h.clean;
}
Step-IsFair {v} (stops_waiting l e c) h = record {
  one = held h l refl;
  kept = λ x k. absurd k;
  ended = λ x y. cc;
  clean = h.clean;
}
Step-IsFair {v} (stops_offering i l e c) h = record {
  one = omega (arith, held h l refl);
  kept = λ x k. absurd k;
  ended = λ x y. cc;
  clean = h.clean;
}
Step-IsFair {v} (reads_sticky size c e s) h = record {
  one = held h refl c;
  kept = λ x k. kept_at h x k refl c;
  ended = h.ended;
  clean = λ x. absurd (x refl);
}
Step-IsFair {v} (reads_current size c n b bs m o) h = record {
  one = held h refl c;
  kept = λ x k. kept_at h n k refl c;
  ended = h.ended;
  clean = λ x. absurd (x refl);
}
Step-IsFair {v} (selects size c n m) h = record {
  one = held h refl c;
  kept = λ x k. kept_at h x k refl c;
  ended = h.ended;
  clean = λ x. n;
}
Step-IsFair {v} (read_cancelled size c e x) h = record {
  one = held h refl c;
  kept = λ y k. cc;
  ended = h.ended;
  clean = λ y. absurd (y refl);
}
Step-IsFair {v} (gets_error size c i l e f) h = record {
  one = omega (arith, held h l c);
  kept = λ y k. cc;
  ended = λ y. cc;
  clean = λ y. absurd (y refl);
}
Step-IsFair {v} (gets_reader size c i l r f) h = record {
  one = omega (arith, held h l c);
  kept = λ y k. omega (arith, kept_at h y tt l c);
  ended = λ y. cc;
  clean = λ y. busy h (λ z. cc) c;
}
Step-IsFair {v} (read_broken size r c e x) h = record {
  one = omega (arith, held h refl c);
  kept = λ y k. cc;
  ended = h.ended;
  clean = λ y. absurd (y refl);
}
Step-IsFair {v} (releases size r c x b) h = record {
  one = omega (arith, held h refl c, b);
  kept = λ y k. omega (arith, kept_at h y k refl c, b);
  ended = h.ended;
  clean = λ y. busy h (λ z. cc) c;
}
Step-IsFair {v} (checks size msg c o) h = record {
  one = held h refl c;
  kept = λ y k. kept_at h (busy h (λ z. cc) c) k refl c;
  ended = h.ended;
  clean = λ y. absurd (y refl);
}
Step-IsFair {v} (cancels e c) h = record {
  one = h.one;
  kept = h.kept;
  ended = λ x y. cc;
  clean = h.clean;
}

Reach-IsFair : {incoming : List Incoming} {w : World} → Reach incoming w → IsFair w
Reach-IsFair begun = record {
  one = omega arith;
  kept = λ x k. refl;
  ended = λ x. cc;
  clean = λ x. refl;
}
Reach-IsFair (stepped r s) = Step-IsFair s (Reach-IsFair r)

-- What a call at the `select` of `doRead` waits for, if there is one.
pub data Waits (w : World) : Type 0 where
  no_wait : ((size : ℕ) → w.call ≢ selecting size) → Waits w
  context_ended : {e : Error} → w.read_ctx ≡ some e → Waits w
  loop_offers : {i : Incoming} → w.loop ≡ offering i → Waits w
  loop_reads : w.loop ≡ in_reader → Waits w
  loop_enters : w.loop ≡ at_barrier → w.barrier ≡ 1 → Waits w

stopped-Waits : (w : World) → IsFair w → w.loop ≡ stopped → Waits w
stopped-Waits w h l = elim (Option-cases w.read_ctx) [
  | inl e ↦ absurd (h.ended l e)
  | inr (x, e) ↦ context_ended e
]

selecting_Waits :
    (w : World) (size : ℕ) (l : Loop) → IsFair w → w.call ≡ selecting size → w.loop ≡ l → Waits w
selecting_Waits w size at_barrier h c l =
    loop_enters l (omega (arith, kept_at h (busy h (λ z. cc) c) tt l c))
selecting_Waits w size in_reader h c l = loop_reads l
selecting_Waits w size (offering i) h c l = loop_offers l
selecting_Waits w size stopped h c l = stopped-Waits w h l

call_Waits : (w : World) (c : Call) → IsFair w → w.call ≡ c → Waits w
call_Waits w idle h c = no_wait (λ size. cc)
call_Waits w (selecting size) h c = selecting_Waits w size w.loop h c refl
call_Waits w (buffering size r) h c = no_wait (λ n. cc)
call_Waits w (checking size msg) h c = no_wait (λ n. cc)

-- The barrier's value is in one place, or a call has failed, or the loop has returned.
abbrev pub IsHeld : World → Type 0
IsHeld w =
    (w.barrier + loop_holds w.loop + call_holds w.call ≡ 1) ⊎ (w.err ≢ none) ⊎ (w.loop ≡ stopped)

kept-IsHeld : (w : World) (l : Loop) → IsFair w → w.loop ≡ l → w.err ≡ none → IsHeld w
kept-IsHeld w at_barrier h l e = inl (h.kept e (subst IsWorking (sym l) tt))
kept-IsHeld w in_reader h l e = inl (h.kept e (subst IsWorking (sym l) tt))
kept-IsHeld w (offering i) h l e = inl (h.kept e (subst IsWorking (sym l) tt))
kept-IsHeld w stopped h l e = inr (inr l)

IsFair-IsHeld : (w : World) → IsFair w → IsHeld w
IsFair-IsHeld w h = elim (Option-cases w.err) [
  | inl e ↦ kept-IsHeld w w.loop h refl e
  | inr (x, e) ↦ inr (inl (λ n. cc))
]

-- However the loop, the calls of `Read` and the end of the context are interleaved: the barrier's value
-- is in at most one place: in its channel, with the loop between the receive from the barrier and the
-- handing over, or with the call of `Read` that reads the message. So one reader of the connection is in
-- use at a time, and the send to the barrier finds its channel empty. And it is in one of them, unless a
-- call of `Read` has failed or the loop has returned. A call of `Read` that waits for a message waits for
-- the connection alone: the context has ended, or the loop offers a result, is in the connection's
-- `Reader`, or can go there.
pub Reach-Waits :
    {incoming : List Incoming} {w : World}
    → Reach incoming w
    → (w.barrier + loop_holds w.loop + call_holds w.call ≤ 1) × IsHeld w × Waits w
Reach-Waits {incoming} {w} r =
    let h = Reach-IsFair r in (h.one, IsFair-IsHeld w h, call_Waits w w.call h refl)

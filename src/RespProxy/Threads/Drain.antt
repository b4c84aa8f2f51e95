-- ===== src/RespProxy/Threads/Drain.antt =====
-- provider_simulator/resp_proxy.py: the wait of cut_off comes to its end.
use provider_simulator.Base.{
  ℕ, ◌+◌, ◌≡◌, refl, ap, ◌∙◌, Bool, true, false, not, none, some, List, [], ◌∷◌, set, count_if,
  count_if-set, get_elem?, arith, ◌≤◌, ◌*◌, suc, zero, count_if-find, if◌then◌else◌, inl, inr,
}
use provider_simulator.RespProxy.{
  Kind, shut, Source, router, store, Place, admitted, refused, looping, dialing, pumped, ending,
  ended, pumping, sending, writing, releasing, Conn, Proxy, new_proxy, end_drain,
}
use provider_simulator.RespProxy.Threads.{System, after, write, release, advance}
use provider_simulator.RespProxy.Threads.Steps.{
  moves, drains, Reach, Calm, still, later, is_delivering, is_busy, IsConsistent,
}
use provider_simulator.RespProxy.Threads.Counts.{
  advance_frame, Move-IsConsistent, Reach-IsConsistent,
}

abbrev is_at_write : Place → Bool
is_at_write (writing source) = true
is_at_write _ = false

abbrev is_writing : Conn → Bool
is_writing conn = is_at_write conn.place

-- The steps that the running deliveries still have to make.
abbrev work : List Conn → ℕ
work conns = count_if is_busy conns + count_if is_writing conns

abbrev pub steps : {p p' : Proxy} → Calm p p' → ℕ
steps still = 0
steps (later run m) = suc (steps run)

writing_busy :
    (place : Place) → (if is_at_write place then 1 else 0) ≤ (if is_delivering place then 1 else 0)
writing_busy (writing source) = omega arith
writing_busy (releasing source done) = omega arith
writing_busy (pumping source) = omega arith
writing_busy (sending source) = omega arith
writing_busy admitted = omega arith
writing_busy refused = omega arith
writing_busy looping = omega arith
writing_busy dialing = omega arith
writing_busy pumped = omega arith
writing_busy ending = omega arith
writing_busy ended = omega arith

work_bound : (conns : List Conn) → work conns ≤ 2 * count_if is_busy conns
work_bound [] = omega arith
work_bound (conn ∷ conns) = omega (arith, work_bound conns, writing_busy conn.place)

-- To move the thread `c` from one place to another.
work-set :
    (conns : List Conn) (c : ℕ) (conn conn' : Conn)
    → get_elem? conns c ≡ some conn
    → work (set conns c conn')
        + ((if is_busy conn then 1 else 0) + (if is_writing conn then 1 else 0))
      ≡ work conns + ((if is_busy conn' then 1 else 0) + (if is_writing conn' then 1 else 0))
work-set conns c conn conn' found =
    let busy = count_if-set is_busy conns c conn conn' found in
    let writes = count_if-set is_writing conns c conn conn' found in omega (arith, busy, writes)

after_writing : (source : Source) → is_at_write (after source) ≡ false
after_writing router = refl
after_writing store = refl

release_idle :
    (source : Source) (done : Bool)
    → (is_delivering (if done then after source else ending) ≡ false)
      × (is_at_write (if done then after source else ending) ≡ false)
release_idle router true = (refl, refl)
release_idle store true = (refl, refl)
release_idle source false = (refl, refl)

-- A step of a running delivery leaves one step fewer, whatever the system answers.
work-advance :
    (os : System) (c : ℕ) (conn : Conn) (p : Proxy)
    → get_elem? p.conns c ≡ some conn
    → (place : Place) → conn.place ≡ place
    → is_delivering place ≡ true
    → work (advance os c conn place p).conns + 1 ≡ work p.conns
unfolding advance write release
work-advance os c conn p found (writing source) at running =
    let w =
      work-set p.conns c conn (record conn { place = releasing source (not os.raised) }) found in
    let busy : is_busy conn ≡ true = ap is_delivering at in
    let writes : is_writing conn ≡ true = ap is_at_write at in ground (arith, w, busy, writes)
work-advance os c conn p found (releasing source done) at running =
    let w =
      work-set p.conns c conn (record conn { place = if done then after source else ending })
        found in
    let busy : is_busy conn ≡ true = ap is_delivering at in
    let writes : is_writing conn ≡ false = ap is_at_write at in
    let (idle, quiet) = release_idle source done in ground (arith, w, busy, writes, idle, quiet)
work-advance os c conn p found (pumping source) at running = cc
work-advance os c conn p found (sending source) at running = cc
work-advance os c conn p found admitted at running = cc
work-advance os c conn p found refused at running = cc
work-advance os c conn p found looping at running = cc
work-advance os c conn p found dialing at running = cc
work-advance os c conn p found pumped at running = cc
work-advance os c conn p found ending at running = cc
work-advance os c conn p found ended at running = cc

-- A run that has let the locks of the call go, with the gate shut its way.
pub record Drained {start p : Proxy} (kind : Kind) (so_far : Calm start p) (bound : ℕ)
    : Type 0 where
  pub last : Proxy
  pub run : Calm start last
  pub free : last.draining ≡ none
  pub gate : last.gate ≡ shut kind
  pub short : steps run ≤ steps so_far + bound

drain_now :
    {start p : Proxy} (kind : Kind) (live : List ℕ) (so_far : Calm start p) (n : ℕ)
    → IsConsistent p
    → p.draining ≡ some (kind, live)
    → p.delivering ≡ 0
    → Drained kind so_far (n + 1)
unfolding end_drain
drain_now {start} {p} kind live so_far n h e over = record {
  last = end_drain kind live p;
  run = later so_far (drains kind live e over);
  free = refl;
  gate = h.held kind live e;
  short = omega arith;
}

drain_within :
    {start : Proxy} (answers : ℕ → System) (n : ℕ) (kind : Kind) (live : List ℕ) {p : Proxy}
    (so_far : Calm start p)
    → IsConsistent p
    → p.draining ≡ some (kind, live)
    → work p.conns ≤ n
    → Drained kind so_far (n + 1)
drain_within {start} answers zero kind live {p} so_far h e bound =
    drain_now kind live so_far zero h e (omega (arith, h.counted, bound))
drain_within {start} answers (suc n) kind live {p} so_far h e bound =
    elim (count_if-find is_busy p.conns) [
      | inl idle ↦ drain_now kind live so_far (suc n) h e (h.counted ∙ idle)
      | inr (c, conn, found, running) ↦
          let less = work-advance (answers n) c conn p found conn.place refl running in
          let rest : Drained kind (later so_far (moves (answers n) c conn found)) (n + 1) =
            drain_within answers n kind live (later so_far (moves (answers n) c conn found))
              (Move-IsConsistent (moves (answers n) c conn found) h)
              ((advance_frame (answers n) c conn conn.place p).1 ∙ e)
              (omega (arith, less, bound)) in
          record {
            last = rest.last;
            run = rest.run;
            free = rest.free;
            gate = rest.gate;
            short = let most = rest.short in omega (arith, most);
          }
    ]

-- A cut-off that waits, in any state that an interleaving reaches, can end its wait with the gate
-- still shut its way, without a restore and whatever the system answers: two steps for each
-- delivery that runs and one more are enough.
pub cut_off-Drained :
    {p : Proxy} (answers : ℕ → System) (kind : Kind) (live : List ℕ)
    → Reach new_proxy p
    → p.draining ≡ some (kind, live)
    → Drained {start = p} {p = p} kind still (2 * p.delivering + 1)
cut_off-Drained {p} answers kind live run e =
    let h = Reach-IsConsistent run in
    let most = work_bound p.conns in
    let counted = h.counted in
    drain_within answers (2 * p.delivering) kind live still h e (omega (arith, most, counted))

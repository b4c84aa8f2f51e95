-- ===== src/PortGate/World.antt =====
-- provider_simulator/port_gate.py: the interleavings of the writers of a scenario, the callers
-- that ask, and the one serve loop of the port. Beside the gate a world has the wish of the
-- scenario and, for the statements alone, how often it was written, which write each ask followed,
-- and which write the newest finished pass had read.
use provider_simulator.Base.{ℕ, ◌+◌, ◌≡◌, Bool, nat_eq, if◌then◌else◌}
use provider_simulator.PortGate.{PortGate, new_gate, begin_pass, end_pass, ask}

-- Where the serve loop stands: outside a pass, in one that has not read the scenario, in one that
-- has.
pub data Phase : Type 0 where
  idle : Phase
  begun : ℕ → Phase
  read : ℕ → ℕ → Bool → Phase

pub record World : Type 0 where
  pub gate : PortGate
  pub wish : Bool
  pub writes : ℕ
  pub write_of : ℕ → ℕ
  pub phase : Phase
  pub read_write : ℕ
  pub read_wish : Bool

unfoldable pub start : Bool → World
start wish = record {
  gate = new_gate;
  wish = wish;
  writes = 0;
  write_of = λ ticket. 0;
  phase = idle;
  read_write = 0;
  read_wish = wish;
}

-- The loop reports any state that the server ended in: a bind can fail.
pub data Step (w : World) : World → Type 0 where
  write : (wish : Bool) → Step w (record w { wish = wish; writes = w.writes + 1 })
  asks : Step w (record w {
    gate = (ask w.gate).0;
    write_of = λ ticket. if nat_eq ticket (ask w.gate).1 then w.writes else w.write_of ticket;
  })
  begins :
      w.phase ≡ idle
      → Step w (record w { gate = (begin_pass w.gate).0; phase = begun (begin_pass w.gate).1 })
  reads :
      (seen : ℕ) → w.phase ≡ begun seen → Step w (record w { phase = read seen w.writes w.wish })
  ends :
      (seen at : ℕ) (wish is_open : Bool)
      → w.phase ≡ read seen at wish
      → Step w (record w {
        gate = end_pass w.gate seen is_open;
        phase = idle;
        read_write = at;
        read_wish = wish;
      })

pub data Reach (start : World) : World → Type 0 where
  here : Reach start start
  next : {w w' : World} → Reach start w → Step w w' → Reach start w'

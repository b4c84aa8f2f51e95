-- ===== src/Chains/Tests.antt =====
-- Runs of provider_simulator/chains/base.py.
use provider_simulator.Base.{◌*◌, ◌≡◌, refl, true, some, none, []}
use provider_simulator.Base.Int.{pos, negsuc}
use provider_simulator.Base.Json.{null}
use provider_simulator.Chains.{Rates, new_head, current, set_rate, bump, reset, head_named}
use provider_simulator.Chains.Blocks.{◌+ℤ◌}

abbrev rates : Rates
rates = record { is_positive = λ rate. true; made = λ rate ms. 2 * ms }

-- A rate of two blocks, set at 10 and read at 13, after a bump of five.
advances :
    (current rates 13 (set_rate rates 10 10 null (bump (pos 5) (new_head (pos 100)))) ≡ pos 111)
    × (current rates 13 (reset (set_rate rates 10 10 null (bump (pos 5) (new_head (pos 100)))))
        ≡ pos 100)
unfolding current set_rate bump new_head reset ◌+ℤ◌
advances = (refl, refl)

-- A bump of fewer than no blocks takes a head back.
goes_back : current rates 0 (bump (negsuc 6) (new_head (pos 3))) ≡ negsuc 3
unfolding current bump new_head ◌+ℤ◌
goes_back = refl

-- A single head is reached under the name default.
single :
    (head_named "default" (record { head = some (new_head (pos 1)); heads = [] })
      ≡ some (new_head (pos 1)))
    × (head_named "grpc" (record { head = some (new_head (pos 1)); heads = [] }) ≡ none)
unfolding head_named new_head
single = (refl, refl)

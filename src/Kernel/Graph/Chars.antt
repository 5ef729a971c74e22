-- ===== src/Kernel/Graph/Chars.antt =====
-- The one-character texts that Python's iteration over a `str` gives.
use Prim.Native.String.{String, [], ◌∷◌}
use trading_agents.Kernel.Graph.Value.{Items, nil, cons, str}

unfoldable pub chars : String → Items
chars [] = nil
chars (c ∷ text) = cons (str (c ∷ [])) (chars text)

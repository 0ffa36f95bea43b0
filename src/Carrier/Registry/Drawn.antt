-- ===== src/Carrier/Registry/Drawn.antt =====
-- The rows of the carriers are kept under ids that have been drawn.
use truckmaster.Base.{ℕ, ◌≡◌, ◌<◌, some, arith}
use truckmaster.Store.Rows.{Carrier}
use truckmaster.Carrier.Registry.{
  Registry, Step, draw, create, change, Reaches, here, next, AreDrawn,
}

pub found-drawn :
    (r : Registry) (id : ℕ) (a : Carrier) → AreDrawn r → r.carriers id ≡ some a → id < r.next_id
found-drawn r id a h found = ground (arith, h id)

pub Step-AreDrawn : {r t : Registry} → Step r t → AreDrawn r → AreDrawn t
Step-AreDrawn (draw r) h = λ k less. h k (omega arith)
Step-AreDrawn (create r org dto new slot) h = λ k less. ground (arith, h k)
Step-AreDrawn (change r id a b found c) h =
    let below = found-drawn r id a h found in λ k above. ground (arith, below, h k)

pub Reaches-AreDrawn : {r t : Registry} → Reaches r t → AreDrawn r → AreDrawn t
Reaches-AreDrawn here h = h
Reaches-AreDrawn (next p step) h = Step-AreDrawn step (Reaches-AreDrawn p h)

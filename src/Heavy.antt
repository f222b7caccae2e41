-- ===== src/Heavy.antt =====
-- The heavy matching: `improved_procedure` of source/sequential_suitor.cpp and of
-- source/sequential_dominant.cpp joins two matchings into one. Where both files do the same it is
-- written once here; what stands for the edge weights differs.
pub mod Pairing
pub mod Starts
pub mod Track
pub mod Ends
pub mod Closing
pub mod Walks
pub mod Joined
pub mod Joining
pub mod Single
pub mod Passes
pub mod Mirrored
pub mod Correct
pub mod Extended
pub mod Steps
use cpp_suitor_and_local_dom.Base.{
  ℕ, zero, suc, ◌+◌, Bool, true, false, not, ◌&&◌, ◌||◌, List, [], ◌∷◌, ◌++◌, Option, none, some,
  ◌>>=◌, ltb, ◌==◌, if◌then◌else◌, update,
}
use cpp_suitor_and_local_dom.EdgeList.{Edge, EdgeList}
use cpp_suitor_and_local_dom.Suitor.Protocol.{Proposals, propose}

-- The two matchings, and the weight of the edge of a node in each. `plus` adds two doubles; it may
-- round.
pub record Twin : Type 0 where
  pub null : ℕ
  pub mate : ℕ → ℕ
  pub mate2 : ℕ → ℕ
  pub weight : ℕ → ℕ
  pub weight2 : ℕ → ℕ
  pub plus : ℕ → ℕ → ℕ

-- `*M[c]` and `W[c]`. `M` has two containers that take turns, so that `M[counter]` is the one of
-- `M[counter - 2]`.
pub record Choice : Type 0 where
  pub edges : EdgeList
  pub total_weight : ℕ

-- The variables of a walk: `mate_runner == 1`, and the choices at `counter - 1`, `counter - 2`.
pub record Walk : Type 0 where
  pub processed : ℕ → Bool
  pub current : ℕ
  pub mate_runner : Bool
  pub last : Choice
  pub previous : Choice

abbrev pub nothing : Choice
nothing = record { edges = []; total_weight = 0 }

-- `valid_path`: the heavier of the last two choices.
unfoldable pub valid_path : Walk → EdgeList
valid_path w =
    if ltb w.previous.total_weight w.last.total_weight then w.last.edges else w.previous.edges

-- `std::tie(a, b, weight) = *iter; suitor3[a] = b; ws3[a] = weight;`
unfoldable pub store : EdgeList → Proposals → Proposals
store [] t = t
store (e ∷ rest) t = store rest (propose t e.to e.from e.length)

-- After a walk: what has been processed, and the table with the valid path.
abbrev pub finish : Proposals → Walk → (ℕ → Bool) × Proposals
finish t w = (w.processed, store (valid_path w) t)

-- A `for` loop over the nodes 0 to `k - 1`.
unfoldable pub each_node {ℓ} : {S : Type ℓ} → (S → ℕ → Option S) → ℕ → S → Option S
each_node body zero s = some s
each_node body (suc k) s = each_node body k s >>= λ t. body t k

-- The first edge of a walk, along `mate2` or along `mate`.
module _ (m : Twin) where
  unfoldable pub begin2 : (ℕ → Bool) → ℕ → Walk
  begin2 processed u = record {
    processed = update (update processed u true) (m.mate2 u) true;
    current = m.mate2 u;
    mate_runner = false;
    last = record {
      edges = record { from = u; to = m.mate2 u; length = m.weight2 u } ∷ [];
      total_weight = m.weight2 u;
    };
    previous = nothing;
  }

  unfoldable pub begin1 : (ℕ → Bool) → ℕ → Walk
  begin1 processed u = record {
    processed = update (update processed u true) (m.mate u) true;
    current = m.mate u;
    mate_runner = true;
    last = record {
      edges = record { from = u; to = m.mate u; length = m.weight u } ∷ [];
      total_weight = m.weight u;
    };
    previous = nothing;
  }

module _ (m : Twin) where
  abbrev pub extend : Choice → ℕ → ℕ → ℕ → Choice
  extend c from to length = record {
    edges = c.edges ++ (record { from = from; to = to; length = length } ∷ []);
    total_weight = m.plus c.total_weight length;
  }

  -- The body of the `while` loops.
  unfoldable pub advance : Walk → Walk
  advance w =
      let my_mate = if w.mate_runner then m.mate2 w.current else m.mate w.current in
      let edge_weight = if w.mate_runner then m.weight2 w.current else m.weight w.current in
      record {
        processed = update w.processed my_mate true;
        current = my_mate;
        mate_runner = not w.mate_runner;
        last = extend w.previous w.current my_mate edge_weight;
        previous = w.last;
      }

  -- The loop along a path, to a node that lacks one of its mates.
  unfoldable pub along_path : ℕ → Walk → Option Walk
  unfolding advance
  along_path zero w = none
  along_path (suc fuel) w =
      let further = along_path fuel (advance w) in
      if not (m.mate w.current == m.null) && not (m.mate2 w.current == m.null)
      then further
      else some w

  -- The loop around a cycle, back to `u`.
  unfoldable pub around_cycle : ℕ → ℕ → Walk → Option Walk
  unfolding advance
  around_cycle zero u w = none
  around_cycle (suc fuel) u w =
      let further = around_cycle fuel u (advance w) in if w.current == u then some w else further

  -- The body of the loop over the nodes that finds the paths.
  unfoldable pub visit_path : ℕ → (ℕ → Bool) × Proposals → ℕ → Option ((ℕ → Bool) × Proposals)
  unfolding begin1 begin2 along_path valid_path store
  visit_path fuel (processed, t) u =
      if (m.mate u == m.null) && (m.mate2 u == m.null)
      then some (update processed u true, t)
      else if ((m.mate u == m.null) || (m.mate2 u == m.null)) && not (processed u)
      then (along_path fuel
            (if m.mate u == m.null then begin2 m processed u else begin1 m processed u)
          >>= λ w. some (finish t w))
      else some (processed, t)

  -- The body of the loop that finds the cycles.
  unfoldable pub visit_cycle : ℕ → (ℕ → Bool) × Proposals → ℕ → Option ((ℕ → Bool) × Proposals)
  unfolding begin2 around_cycle valid_path store
  visit_cycle fuel (processed, t) u =
      if processed u
      then some (processed, t)
      else (around_cycle fuel u (begin2 m processed u) >>= λ w. some (finish t w))

  -- The counter edges, at the nodes 0 to `k - 1`.
  unfoldable pub counter_edges : ℕ → Proposals → Proposals
  counter_edges zero t = t
  counter_edges (suc k) t =
      let s = counter_edges k t in
      if s.suitor k == m.null then s else propose s k (s.suitor k) (s.ws k)

  -- Paths, cycles and counter edges.
  unfoldable pub join_matchings : ℕ → Proposals → Option Proposals
  unfolding visit_path visit_cycle each_node counter_edges
  join_matchings fuel t = each_node (visit_path fuel) m.null ((λ _. false), t) >>= λ s.
      each_node (visit_cycle fuel) m.null s >>= λ s2. some (counter_edges m.null s2.1)

-- ===== src/State/SwapData.antt =====
-- actix-web-lab/src/swap_data.rs: handles on a cell whose value can be replaced. The arc_swap crate is a
-- parameter: cells with a load and a store, in a heap.
use actix_web_lab.Common.{Option, none, some, Result, ok, err, ◌≡◌, ◌≢◌}

-- `ArcSwap` behind an `Arc`: a load gives what was stored last. There is no value for a cell that was
-- not made.
pub record ArcSwap (T : Type 0) : Type 1 where
  pub Heap : Type 0
  pub Cell : Type 0
  pub make : T → Heap → Cell × Heap
  pub load_cell : Cell → Heap → Option T
  pub store_cell : Cell → T → Heap → Heap
  pub load_made : (item : T) (h : Heap) → load_cell (make item h).0 (make item h).1 ≡ some item
  pub load_stored :
      (c : Cell) (h : Heap) (old item : T)
      → load_cell c h ≡ some old
      → load_cell c (store_cell c item h) ≡ some item
  pub load_other :
      (c d : Cell) (h : Heap) (item : T) → d ≢ c → load_cell c (store_cell d item h) ≡ load_cell c h

module _ {T : Type 0} (arc : ArcSwap T) where
  pub record SwapData : Type 0 where
    pub swap : arc.Cell

  unfoldable pub new : T → arc.Heap → SwapData × arc.Heap
  new item h = let (cell, h') = arc.make item h in (record { swap = cell }, h')

  unfoldable pub load : SwapData → arc.Heap → Option T
  load handle h = arc.load_cell handle.swap h

  unfoldable pub store : SwapData → T → arc.Heap → arc.Heap
  store handle item h = arc.store_cell handle.swap item h

  unfoldable pub clone : SwapData → SwapData
  clone handle = record { swap = handle.swap }

  -- `internal` is `ErrorInternalServerError` with its message.
  unfoldable pub from_request : {Error : Type 0} → Error → Option SwapData → Result Error SwapData
  from_request internal none = err internal
  from_request internal (some handle) = ok (record { swap = handle.swap })

  -- What was stored through a clone is loaded through the handle.
  pub load-store :
      (handle : SwapData) (h : arc.Heap) (old item : T)
      → load handle h ≡ some old
      → load handle (store (clone handle) item h) ≡ some item
  unfolding load store clone
  load-store handle h old item there = arc.load_stored handle.swap h old item there

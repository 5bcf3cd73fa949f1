-- ===== src/Kueue/Threads/Contents.antt =====
-- The messages of a queue between the steps of its threads.
use librocks_dll.Prelude.{ℕ, true, List, ◌≡◌, ◌∙◌, ap}
use librocks_dll.Prelude.Text.{Text}
use librocks_dll.Engine.{Engine, Handle}
use librocks_dll.Engine.Laws.{Laws}
use librocks_dll.Kind.{KindImpl}
use librocks_dll.Store.State.{Sys}
use librocks_dll.Store.Frame.{IsValid, Quiet}
use librocks_dll.Kueue.Contents.{Contains}

module _ {W : Type 0} {E : Engine W} (L : Laws E) (k : KindImpl) (h : Handle) where
  -- An open store, and its family holds the messages from the key `lo` on.
  pub record Holds (lo : ℕ) (items : List Text) (s : Sys W) : Type 0 where
    pub store : IsValid s
    pub opened : s.store.is_open ≡ true
    pub contains : Contains (L.view s.world) h lo items

  pub Holds-Quiet :
      (lo : ℕ) (items : List Text) (s t : Sys W)
      → Holds lo items s
      → IsValid t
      → Quiet L s t
      → Holds lo items t
  Holds-Quiet lo items s t p v q = record {
    store = v;
    opened = q.frame.is_open ∙ p.opened;
    contains = λ j. ap (λ f. f h j) q.view ∙ p.contains j;
  }

-- ===== src/Stream/Both.antt =====
-- What a `Tee` does over a whole run of writes and flushes.
use metrique.Prelude.{◌≡◌, refl, ap, Bool, ◌&&◌, Option, List, [], ◌∷◌}
use metrique.Background.Receiver.{IoStreamError, Item, EntryIoStream}
use metrique.Stream.{and, tee}

pub data Request (E : Type 0) : Type 0 where
  write : Item E → Request E
  flush_all : Request E

pub data Response : Type 0 where
  wrote : Option IoStreamError → Response
  flushed : Bool → Response

-- The answers of two streams put together, the first one's error before the second's.
abbrev pub both : List Response → List Response → List Response
both (wrote r ∷ rs) (wrote q ∷ qs) = wrote (and r q) ∷ both rs qs
both (flushed r ∷ rs) (flushed q ∷ qs) = flushed (r && q) ∷ both rs qs
both _ _ = []

module _ {E : Type 0} where
  abbrev pub respond :
      (s : EntryIoStream E) → s.Stream → List (Request E) → List Response × s.Stream
  respond s w [] = ([], w)
  respond s w (write item ∷ requests) =
      let (r, w') = s.next w item in let (rs, w'') = respond s w' requests in (wrote r ∷ rs, w'')
  respond s w (flush_all ∷ requests) =
      let (r, w') = s.flush w in let (rs, w'') = respond s w' requests in (flushed r ∷ rs, w'')

  -- Whatever is written and flushed, both streams of a tee get all of it, in its order and whether
  -- the other one fails or not, and the answers are those of both, the first one's error before the
  -- second's.
  pub tee_lem :
      (s1 s2 : EntryIoStream E) (a : s1.Stream) (b : s2.Stream) (requests : List (Request E))
      → respond (tee s1 s2) (a, b) requests ≡ (
        both (respond s1 a requests).0 (respond s2 b requests).0,
        ((respond s1 a requests).1, (respond s2 b requests).1),
      )
  tee_lem s1 s2 a b [] = refl
  tee_lem s1 s2 a b (write item ∷ requests) =
      let (r1, a') = s1.next a item in
      let (r2, b') = s2.next b item in
      ap (λ p. (wrote (and r1 r2) ∷ p.0, p.1)) (tee_lem s1 s2 a' b' requests)
  tee_lem s1 s2 a b (flush_all ∷ requests) =
      let (r1, a') = s1.flush a in
      let (r2, b') = s2.flush b in
      ap (λ p. (flushed (r1 && r2) ∷ p.0, p.1)) (tee_lem s1 s2 a' b' requests)

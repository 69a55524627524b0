-- ===== src/Tests/Streams.antt =====
-- The theorems on event streams, at concrete bytes. ASCII is decoded as it is.
use nextapi.Base.{ℕ, ◌≡◌, refl, List, [], ◌∷◌, ◌++◌}
use nextapi.Sse.{feed, fresh, encode_event}
use nextapi.Sse.Chunks.{feed-append}
use nextapi.Sse.Trip.{feed-encode_event}

abbrev as_is : List ℕ → List ℕ
as_is xs = xs

-- `data:hi`, cut within the word.
feed-append_example :
    feed as_is fresh ((100 ∷ 97 ∷ []) ++ (116 ∷ 97 ∷ 58 ∷ 104 ∷ 105 ∷ 10 ∷ 10 ∷ [])) ≡ (
      (feed as_is
          (feed as_is fresh (100 ∷ 97 ∷ [])).0
          (116 ∷ 97 ∷ 58 ∷ 104 ∷ 105 ∷ 10 ∷ 10 ∷ [])).0,
      (feed as_is fresh (100 ∷ 97 ∷ [])).1
          ++ (feed as_is
              (feed as_is fresh (100 ∷ 97 ∷ [])).0
              (116 ∷ 97 ∷ 58 ∷ 104 ∷ 105 ∷ 10 ∷ 10 ∷ [])).1,
    )
feed-append_example =
    feed-append as_is fresh (100 ∷ 97 ∷ []) (116 ∷ 97 ∷ 58 ∷ 104 ∷ 105 ∷ 10 ∷ 10 ∷ [])

-- Two lines, the second one empty.
feed-encode_event_example :
    feed as_is fresh (encode_event (104 ∷ 105 ∷ 10 ∷ [])) ≡ (fresh, (104 ∷ 105 ∷ 10 ∷ []) ∷ [])
feed-encode_event_example = feed-encode_event as_is (λ xs h. refl) (104 ∷ 105 ∷ 10 ∷ []) refl

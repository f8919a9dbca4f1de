-- ===== src/Delivery/Order.antt =====
-- Delivery statuses that arrive in any order.
use Prim.Native.Nat.{max}
use whatsignal.Base.{
  ℕ, ◌≡◌, refl, ap, ◌∙◌, Bool, true, false, List, [], ◌∷◌, arith, if◌then◌else◌, leb, ◌||◌, ◌&&◌,
}
use whatsignal.Base.Text.{Text, same, same_iff}
use whatsignal.Delivery.{
  Mapping, delivery_status_rank, should_update, mapping_by_whatsapp_id, set_status, affects,
  set_delivery_status, update_delivery_status, is_outdated,
}

-- The rank of the status that is stored for a WhatsApp ID, 0 if there is none.
abbrev pub rank_of : Text → List Mapping → ℕ
rank_of id [] = 0
rank_of id (m ∷ ms) = if same m.whatsapp_id id then delivery_status_rank m.status else rank_of id ms

abbrev pub is_known : Text → List Mapping → Bool
is_known id [] = false
is_known id (m ∷ ms) = same m.whatsapp_id id || is_known id ms

affects-is_known :
    (id : Text) (ms : List Mapping) → affects (λ m. m.whatsapp_id) id ms ≡ is_known id ms
unfolding affects
affects-is_known id [] = refl
affects-is_known id (m ∷ ms) = ap (λ b. same m.whatsapp_id id || b) (affects-is_known id ms)

rank_of-set_status :
    (id status j : Text) (ms : List Mapping)
    → rank_of j (set_status (λ m. m.whatsapp_id) id status ms)
      ≡ (if same id j && is_known id ms then delivery_status_rank status else rank_of j ms)
unfolding set_status
rank_of-set_status id status j [] = ground arith
rank_of-set_status id status j (m ∷ ms) = ground (
  arith,
  rank_of-set_status id status j ms,
  same_iff m.whatsapp_id id,
  same_iff m.whatsapp_id j,
  same_iff id j,
)

is_known-set_status :
    (id status j : Text) (ms : List Mapping)
    → is_known j (set_status (λ m. m.whatsapp_id) id status ms) ≡ is_known j ms
unfolding set_status
is_known-set_status id status j [] = refl
is_known-set_status id status j (m ∷ ms) = ground (arith, is_known-set_status id status j ms)

is_outdated-rank :
    (id status : Text) (ms : List Mapping)
    → is_known id ms ≡ true
    → is_outdated (mapping_by_whatsapp_id id ms) status
      ≡ (if leb (rank_of id ms) (delivery_status_rank status) then false else true)
unfolding mapping_by_whatsapp_id should_update
is_outdated-rank id status [] h = ground arith
is_outdated-rank id status (m ∷ ms) h = ground (arith, is_outdated-rank id status ms)

-- One update whose database operations succeed.
updated :
    (id status : Text) (ms : List Mapping)
    → is_known id ms ≡ true
    → (update_delivery_status true true id status ms).0 ≡ (
        if leb (rank_of id ms) (delivery_status_rank status)
        then set_status (λ m. m.whatsapp_id) id status ms
        else ms)
unfolding update_delivery_status set_delivery_status
updated id status ms h = ground (arith, is_outdated-rank id status ms h, affects-is_known id ms)

rank_of-update :
    (id status j : Text) (ms : List Mapping)
    → is_known id ms ≡ true
    → rank_of j (update_delivery_status true true id status ms).0
      ≡ (if same id j then max (rank_of j ms) (delivery_status_rank status) else rank_of j ms)
rank_of-update id status j ms h =
    ground (arith, updated id status ms h, rank_of-set_status id status j ms, same_iff id j)

is_known-update :
    (id status j : Text) (ms : List Mapping)
    → is_known id ms ≡ true
    → is_known j (update_delivery_status true true id status ms).0 ≡ is_known j ms
is_known-update id status j ms h =
    ground (arith, updated id status ms h, is_known-set_status id status j ms)

-- Updates of (ID, status), one after the other.
abbrev pub update_all : List (Text × Text) → List Mapping → List Mapping
update_all [] ms = ms
update_all ((id, status) ∷ us) ms = update_all us (update_delivery_status true true id status ms).0

-- The highest rank among the statuses that arrive for an ID, and n.
abbrev pub highest : ℕ → Text → List (Text × Text) → ℕ
highest n j [] = n
highest n j ((id, status) ∷ us) =
    highest (if same id j then max n (delivery_status_rank status) else n) j us

abbrev pub all_known : List (Text × Text) → List Mapping → Bool
all_known [] ms = true
all_known ((id, status) ∷ us) ms = is_known id ms && all_known us ms

-- Delivery statuses: after any updates of known WhatsApp IDs, in any order, over a database that
-- works, the rank of each message's status is the highest of the rank it had and the ranks of the
-- statuses that arrived for it.
pub rank_of-update_all :
    (us : List (Text × Text)) (ms : List Mapping) (j : Text)
    → all_known us ms ≡ true
    → rank_of j (update_all us ms) ≡ highest (rank_of j ms) j us
rank_of-update_all [] ms j h = refl
rank_of-update_all ((id, status) ∷ us) ms j h =
    let known : is_known id ms ≡ true = ground arith in
    let rest : all_known us ms ≡ true = ground arith in
    let ms' = (update_delivery_status true true id status ms).0 in
    rank_of-update_all us ms' j (all_known-update us rest)
    ∙ ap (λ n. highest n j us) (rank_of-update id status j ms known)
  where
    all_known-update :
        (vs : List (Text × Text))
        → all_known vs ms ≡ true
        → all_known vs (update_delivery_status true true id status ms).0 ≡ true
    all_known-update [] k = refl
    all_known-update ((i, s) ∷ vs) k =
        ground (arith, all_known-update vs, is_known-update id status i ms (ground arith))

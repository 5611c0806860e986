-- ===== src/KnowledgeBase/Cleared.antt =====
-- The filters that are left after they were cleared.
use mawster.Base.{true, false, ◌≡◌, refl, text_beq, codes}
use mawster.KnowledgeBase.{
  KnowledgeBase, has_active_filters, handle_clear_filters, handle_source_change,
}

-- After the filters were cleared, some still count as active, whatever was set before; once the
-- source is set to all as well, none does.
pub handle_clear_filters_active :
    {D : Type 0} (s : KnowledgeBase D)
    → (has_active_filters (handle_clear_filters s).view ≡ true)
      × (has_active_filters (handle_source_change (codes "all") (handle_clear_filters s)).view
          ≡ false)
unfolding has_active_filters handle_clear_filters handle_source_change text_beq
handle_clear_filters_active s = (refl, refl)

-- ===== src/Campaign/Stages/Truncation.antt =====
-- What follows a stop at `max_pages`: reconciling, and the promotion of the watermark at the end.

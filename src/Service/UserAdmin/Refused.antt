-- ===== src/Service/UserAdmin/Refused.antt =====
-- x

-- ===== src/Worker.antt =====
-- src/rag/worker/celery_app.py: the background task that ingests a version, over the database.
pub mod Task
pub mod Outcome

-- ===== src/Frontend.antt =====
-- The app `frontend`: the upload page, login and registration.
pub mod Http
pub mod Urls
pub mod Decorators
pub mod Authentication
pub mod Forms
pub mod Login
pub mod Lookup
pub mod Site
pub mod Tags
pub mod Redirect
pub mod Accounts
pub mod Registration
pub mod Visits
pub mod Answering
pub mod Granting
pub mod Guarded
pub mod Shadowing
pub mod Browsing
pub mod Upload
pub mod Loop
pub mod Report
pub mod Fresh
pub mod Uploaded
pub mod Framing
pub mod SampleAuth
pub mod Examples
mod UploadExamples
pub mod LoginExamples
mod TagExamples
